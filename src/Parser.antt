-- ===== src/Parser.antt =====
-- channels-go/internal/parser/parser.go: the message grammar, over texts as lists of runes.
pub mod Token
pub mod Grammar
pub mod Shape
mod Examples
use fieldwatchai_comms_openk.Prelude.{
  ℕ, suc, ◌≡◌, Bool, true, false, not, ◌&&◌, ◌||◌, List, [], ◌∷◌,
}
use fieldwatchai_comms_openk.Prelude.{
  map, any, length, leb, ltb, ◌==◌, comparable_nat, comparable_list, if◌then◌else◌,
}
use fieldwatchai_comms_openk.Prelude.{codes, is_space, all}

abbrev pub Text : Type 0
Text = List ℕ

-- The tables of Go's `unicode` package: `IsLetter`, `IsDigit`, `ToUpper`, `ToLower`, and for
-- `EqualFold` a representative of each orbit of simple folding.
pub record Unicode : Type 0 where
  pub letter : ℕ → Bool
  pub digit : ℕ → Bool
  pub upper : ℕ → ℕ
  pub lower : ℕ → ℕ
  pub fold : ℕ → ℕ

-- `Config`
pub record Config : Type 0 where
  pub commands : List Text

-- `ParseResult`
pub record ParseResult : Type 0 where
  pub ok : Bool
  pub short_id : Text
  pub has_target : Bool
  pub target : Text
  pub command : Text
  pub known_command : Bool
  pub payload : Text

-- `strings.TrimSpace`
unfoldable pub trim_left : Text → Text
trim_left [] = []
trim_left (c ∷ s) = let rest = trim_left s in if is_space c then rest else c ∷ s

unfoldable pub trim_right : Text → Text
trim_right [] = []
trim_right (c ∷ s) = elim (trim_right s) [
  | [] ↦ if is_space c then [] else c ∷ []
  | d ∷ t ↦ c ∷ d ∷ t
]

unfoldable pub trim_space : Text → Text
trim_space s = trim_right (trim_left s)

-- `firstToken`
unfoldable pub first_token : Text → Text × Text
first_token [] = ([], [])
first_token (c ∷ s) =
    let (tok, rest) = first_token s in if is_space c then ([], c ∷ s) else (c ∷ tok, rest)

-- A message that `Parse` refuses.
abbrev pub failed : Text → ParseResult
failed short_id = record {
  ok = false;
  short_id = short_id;
  has_target = false;
  target = [];
  command = [];
  known_command = false;
  payload = [];
}

-- `strings.HasPrefix(tgt, "@") && len(tgt) > 1`
unfoldable pub is_target : Text → Bool
is_target [] = false
is_target (c ∷ []) = false
is_target (c ∷ d ∷ name) = c == b'@'

-- `strings.TrimPrefix(tgt, "@")`
unfoldable pub target_name : Text → Text
target_name [] = []
target_name (c ∷ name) = if c == b'@' then name else c ∷ name

module _ (u : Unicode) where
  -- `strings.EqualFold`
  unfoldable pub equal_fold : Text → Text → Bool
  equal_fold s t = map u.fold s == map u.fold t

  -- `validShortID`
  unfoldable pub valid_short_id : Text → Bool
  valid_short_id s = all (λ r. u.letter r || u.digit r) s && leb 1 (length s) && leb (length s) 8

  -- `containsFold`
  unfoldable pub contains_fold : List Text → Text → Bool
  contains_fold set v = any (λ s. equal_fold s v) set

  -- `lead == "→" || strings.EqualFold(lead, "to")`
  unfoldable pub is_arrow : Text → Bool
  is_arrow lead = lead == 0x2192 ∷ [] || equal_fold lead (codes "to")

  -- No target: first token is the command, remainder is payload.
  unfoldable pub parse_command : Config → Text → Text → ParseResult
  parse_command cfg short_id rest =
      let (cmd, after_cmd) = first_token rest in
      record {
        ok = true;
        short_id = short_id;
        has_target = false;
        target = [];
        command = map u.upper cmd;
        known_command = contains_fold cfg.commands cmd;
        payload = trim_space after_cmd;
      }

  -- The text behind an arrow: a target if one follows, or else the whole as a command.
  unfoldable pub parse_target : Config → Text → Text → Text → ParseResult
  parse_target cfg short_id rest after_lead =
      let (tgt, after_tgt) = first_token (trim_space after_lead) in
      if is_target tgt
      then record {
        ok = true;
        short_id = short_id;
        has_target = true;
        target = target_name tgt;
        command = [];
        known_command = false;
        payload = trim_space after_tgt;
      }
      else parse_command cfg short_id rest

  unfoldable pub parse_rest : Config → Text → Text → ParseResult
  parse_rest cfg short_id [] = failed short_id
  parse_rest cfg short_id (c ∷ rest) =
      let (lead, after_lead) = first_token (c ∷ rest) in
      if is_arrow lead
      then parse_target cfg short_id (c ∷ rest) after_lead
      else parse_command cfg short_id (c ∷ rest)

  unfoldable pub parse_trimmed : Config → Text → ParseResult
  parse_trimmed cfg [] = failed []
  parse_trimmed cfg (c ∷ s) =
      let (short_id, rest) = first_token (c ∷ s) in
      if valid_short_id short_id then parse_rest cfg short_id (trim_space rest) else failed []

  -- `Parse`
  unfoldable pub parse : Text → Config → ParseResult
  parse text cfg = parse_trimmed cfg (trim_space text)
