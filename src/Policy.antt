-- ===== src/Policy.antt =====
-- channels-go/internal/policy/policy.go: confidence, the policy gate and the echo text.
pub mod Float
pub mod Bounds
pub mod Gate
mod Examples
use fieldwatchai_comms_openk.Prelude.{
  ℕ, zero, suc, ◌+◌, ◌/◌, ◌%◌, Bool, true, false, not, ◌&&◌, ◌||◌,
}
use fieldwatchai_comms_openk.Prelude.{
  List, [], ◌∷◌, ◌++◌, map, ltb, ◌==◌, comparable_nat, comparable_list, if◌then◌else◌, codes,
}
use Float.{Float64}

abbrev pub Text : Type 0
Text = List ℕ

-- `Action`, and the other labels that the program writes to `messages.policy_action`.
pub data Action : Type 0 where
  execute echo_back clarify routed recalled echoed_back sent : Action

-- `short_id_match`, whose values are the constants of the resolver.
pub data ShortIdMatch : Type 0 where
  exact levenshtein_1 levenshtein_2 no_match : ShortIdMatch

-- `ScoreInput.TargetMatch`; `other` is any other text, such as "".
pub data TargetMatch : Type 0 where
  exact levenshtein_1 ambiguous other : TargetMatch

-- `target_kind`: "none", "target", "group"
pub data TargetKind : Type 0 where
  no_target to_target to_group : TargetKind

-- `ScoreInput`
pub record ScoreInput : Type 0 where
  pub short_id_match : ShortIdMatch
  pub has_target : Bool
  pub target_match : TargetMatch
  pub has_command : Bool
  pub known_command : Bool

abbrev pub is_group : TargetKind → Bool
is_group to_group = true
is_group _ = false

unfoldable pub is_sos : (ℕ → ℕ) → Text → Bool
is_sos upper command = map upper command == codes "SOS"

unfoldable pub is_high_impact : (ℕ → ℕ) → Text → Bool
is_high_impact upper command =
    map upper command == codes "MISSING" || map upper command == codes "DAMAGE"

abbrev pub is_routable : ShortIdMatch → Bool
is_routable ShortIdMatch.no_match = false
is_routable _ = true

module _ (f : Float64) where
  -- `Thresholds`
  pub record Thresholds : Type 0 where
    pub high : f.F
    pub medium : f.F

  -- `s *= …` for the short id, where `none` returns at once.
  unfoldable pub short_id_factor : ShortIdMatch → f.F
  short_id_factor ShortIdMatch.exact = f.tenths 10
  short_id_factor ShortIdMatch.levenshtein_1 = f.mul (f.tenths 10) (f.tenths 7)
  short_id_factor ShortIdMatch.levenshtein_2 = f.mul (f.tenths 10) (f.tenths 5)
  short_id_factor ShortIdMatch.no_match = f.tenths 0

  unfoldable pub penalise_target : TargetMatch → f.F → f.F
  penalise_target TargetMatch.exact s = s
  penalise_target TargetMatch.levenshtein_1 s = f.mul s (f.tenths 6)
  penalise_target TargetMatch.ambiguous s = f.mul s (f.tenths 3)
  penalise_target TargetMatch.other s = f.mul s (f.tenths 2)

  -- `Score`
  unfoldable pub score : ScoreInput → f.F
  score i =
      let s = short_id_factor i.short_id_match in
      let t = if i.has_target then penalise_target i.target_match s else s in
      if not (is_routable i.short_id_match)
      then f.tenths 0
      else if i.has_command && not i.known_command
      then f.mul t (f.tenths 8)
      else t

  -- The switch on the thresholds.
  unfoldable pub gate : f.F → Thresholds → Action
  gate confidence th =
      if f.ge confidence th.high
      then execute
      else if f.ge confidence th.medium
      then echo_back
      else clarify

  -- `Decide`; `upper` is `strings.ToUpper` on one rune.
  unfoldable pub decide : (ℕ → ℕ) → f.F → Text → TargetKind → Thresholds → Action
  decide upper confidence command kind th =
      if is_sos upper command
      then execute
      else if is_group kind
      then echo_back
      else if is_high_impact upper command
      then echo_back
      else gate confidence th

-- `%d` for a number: `fuel` digits at most.
unfoldable pub decimal_digits : ℕ → ℕ → Text → Text
decimal_digits zero n out = out
decimal_digits (suc fuel) n out =
    let rest = decimal_digits fuel (n / 10) ((b'0' + n % 10) ∷ out) in
    if ltb n 10 then (b'0' + n) ∷ out else rest

unfoldable pub decimal : ℕ → Text
decimal n = decimal_digits (suc n) n []

unfoldable pub echo_minutes : ℕ → ℕ
echo_minutes recall_seconds =
    let minutes = recall_seconds / 60 in if ltb minutes 1 then 1 else minutes

-- `EchoText`
unfoldable pub echo_text : Text → Text → ℕ → Text
echo_text target original recall_seconds =
    let minutes = echo_minutes recall_seconds in
    let unit = if minutes == 1 then codes "minute" else codes "minutes" in
    codes "[Forwarded to "
    ++ (target
        ++ (codes ": "
            ++ (original
                ++ (codes ". Reply 'OOPS' within "
                    ++ (decimal minutes ++ (codes " " ++ (unit ++ codes " to recall.]")))))))
