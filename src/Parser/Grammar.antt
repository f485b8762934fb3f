-- ===== src/Parser/Grammar.antt =====
-- `Parse` reads back what the grammar writes: a short id, then a command or a target, then a
-- payload, with any white space between and around them.
use fieldwatchai_comms_openk.Prelude.{ℕ, ◌≡◌, ◌≢◌, refl, sym, ap, ◌∙◌, true, false, [], ◌∷◌, ◌++◌}
use fieldwatchai_comms_openk.Prelude.{is_space, map, append_assoc, append-nil}
use fieldwatchai_comms_openk.Parser.{Text, Unicode, Config, ParseResult, trim_space}
use fieldwatchai_comms_openk.Parser.{
  valid_short_id, contains_fold, is_arrow, is_target, target_name,
}
use fieldwatchai_comms_openk.Parser.{parse_command, parse_target, parse_rest, parse_trimmed, parse}
use fieldwatchai_comms_openk.Parser.Token.{
  IsBlank, IsToken, IsTrimmed, StartsBlank, first_token_lem,
}
use fieldwatchai_comms_openk.Parser.Token.{IsTrimmed-append, IsTrimmed-token, trim_space-around}
use fieldwatchai_comms_openk.Parser.Token.{trim_space_trimmed}

-- A payload behind white space, or nothing.
abbrev pub behind : Text → Text → Text
behind w [] = []
behind w (c ∷ p) = w ++ c ∷ p

-- White space that separates.
abbrev pub IsGap : Text → Type 0
IsGap w = IsBlank w × (w ≢ [])

StartsBlank-gap : (w s : Text) → IsGap w → StartsBlank (w ++ s)
StartsBlank-gap [] s h = absurd (h.1 refl)
StartsBlank-gap (c ∷ w) s h = h.0.0

StartsBlank-behind : (w p : Text) → IsGap w → StartsBlank (behind w p)
StartsBlank-behind w [] h = tt
StartsBlank-behind w (c ∷ p) h = StartsBlank-gap w (c ∷ p) h

trim_space-behind : (w p : Text) → IsGap w → IsTrimmed p → trim_space (behind w p) ≡ p
trim_space-behind w [] h t = trim_space_trimmed [] t
trim_space-behind w (c ∷ p) h t =
    ap (λ x. trim_space (w ++ x)) (sym (append-nil (c ∷ p)))
    ∙ trim_space-around w (c ∷ p) [] h.0 tt
    ∙ trim_space_trimmed (c ∷ p) t

at_visible : is_space b'@' ≡ false
unfolding is_space
at_visible = refl

-- A token with a payload behind it is trimmed.
IsTrimmed-behind :
    (c : ℕ) (t w p : Text) → IsToken (c ∷ t) → IsTrimmed p → IsTrimmed (c ∷ t ++ behind w p)
IsTrimmed-behind c t w [] h k = rw (append-nil t) (IsTrimmed-token (c ∷ t) h)
IsTrimmed-behind c t w (d ∷ p) h k =
    rw (← append_assoc t w (d ∷ p)) (IsTrimmed-append c (t ++ w) (d ∷ p) h.0 (λ e. cc) k.1)

IsTrimmed-spaced :
    (c : ℕ) (t w s : Text) → IsToken (c ∷ t) → s ≢ [] → IsTrimmed s → IsTrimmed (c ∷ t ++ (w ++ s))
IsTrimmed-spaced c t w s h ne k =
    rw (← append_assoc t w s) (IsTrimmed-append c (t ++ w) s h.0 ne k.1)

trim_space-gap : (w s : Text) → IsGap w → IsTrimmed s → trim_space (w ++ s) ≡ s
trim_space-gap w s g k =
    ap (λ x. trim_space (w ++ x)) (sym (append-nil s))
    ∙ trim_space-around w s [] g.0 tt
    ∙ trim_space_trimmed s k

module _ (u : Unicode) (cfg : Config) where
  parse_trimmed-split :
      (c : ℕ) (id w body : Text)
      → valid_short_id u (c ∷ id) ≡ true
      → IsToken (c ∷ id)
      → IsGap w
      → IsTrimmed body
      → parse_trimmed u cfg (c ∷ id ++ (w ++ body)) ≡ parse_rest u cfg (c ∷ id) body
  unfolding parse_trimmed
  parse_trimmed-split c id w body ok t g b =
      rw (first_token_lem (c ∷ id) (w ++ body) t (StartsBlank-gap w body g), ok)
        (ap (parse_rest u cfg (c ∷ id)) (trim_space-gap w body g b))

  -- A valid short id, a gap and a trimmed text, with white space around.
  parse-split :
      (v id w body z : Text)
      → valid_short_id u id ≡ true
      → IsToken id
      → id ≢ []
      → IsGap w
      → IsTrimmed body
      → body ≢ []
      → IsBlank v
      → IsBlank z
      → parse u (v ++ ((id ++ (w ++ body)) ++ z)) cfg ≡ parse_rest u cfg id body
  unfolding parse
  parse-split v [] w body z ok t ne g b bne hv hz = absurd (ne refl)
  parse-split v (c ∷ id) w body z ok t ne g b bne hv hz =
      ap (parse_trimmed u cfg) (
        trim_space-around v (c ∷ id ++ (w ++ body)) z hv hz
        ∙ trim_space_trimmed (c ∷ id ++ (w ++ body)) (IsTrimmed-spaced c id w body t bne b))
      ∙ parse_trimmed-split c id w body ok t g b

  -- What a message with a command means.
  abbrev pub command_result : Text → Text → Text → ParseResult
  command_result id cmd payload = record {
    ok = true;
    short_id = id;
    has_target = false;
    target = [];
    command = map u.upper cmd;
    known_command = contains_fold u cfg.commands cmd;
    payload = payload;
  }

  parse_command-behind :
      (id cmd w p : Text)
      → IsToken cmd
      → IsGap w
      → IsTrimmed p
      → parse_command u cfg id (cmd ++ behind w p) ≡ command_result id cmd p
  unfolding parse_command
  parse_command-behind id cmd w p t g k =
      rw (first_token_lem cmd (behind w p) t (StartsBlank-behind w p g), trim_space-behind w p g k)

  -- White space, a short id, a gap, a command that is no arrow, a payload behind a gap or nothing,
  -- and white space: `Parse` returns the short id, the command in upper case with whether the
  -- channel knows it, and the payload.
  pub parse_command_message :
      (v id w1 cmd w2 p z : Text)
      → valid_short_id u id ≡ true
      → IsToken id
      → id ≢ []
      → IsToken cmd
      → cmd ≢ []
      → is_arrow u cmd ≡ false
      → IsGap w1
      → IsGap w2
      → IsTrimmed p
      → IsBlank v
      → IsBlank z
      → parse u (v ++ ((id ++ (w1 ++ (cmd ++ behind w2 p))) ++ z)) cfg ≡ command_result id cmd p
  unfolding parse_rest
  parse_command_message v id w1 [] w2 p z ok t ne tc nc arrow g1 g2 k hv hz = absurd (nc refl)
  parse_command_message v id w1 (c ∷ cmd) w2 p z ok t ne tc nc arrow g1 g2 k hv hz =
      parse-split v id w1 (c ∷ cmd ++ behind w2 p) z ok t ne g1 (IsTrimmed-behind c cmd w2 p tc k)
        (λ e. cc) hv hz
      ∙ rw (first_token_lem (c ∷ cmd) (behind w2 p) tc (StartsBlank-behind w2 p g2), arrow)
          (parse_command-behind id (c ∷ cmd) w2 p tc g2 k)

  -- What a message to a target means.
  abbrev pub target_result : Text → Text → Text → ParseResult
  target_result id name payload = record {
    ok = true;
    short_id = id;
    has_target = true;
    target = name;
    command = [];
    known_command = false;
    payload = payload;
  }

  parse_target-behind :
      (c : ℕ) (id rest w2 name w3 p : Text)
      → IsToken (c ∷ name)
      → IsGap w2
      → IsGap w3
      → IsTrimmed p
      → parse_target u cfg id rest (w2 ++ (b'@' ∷ c ∷ name ++ behind w3 p))
        ≡ target_result id (c ∷ name) p
  unfolding parse_target is_target target_name
  parse_target-behind c id rest w2 name w3 p t g2 g3 k = rw (
    trim_space-gap w2 (b'@' ∷ c ∷ name ++ behind w3 p) g2
        (IsTrimmed-behind b'@' (c ∷ name) w3 p (at_visible, t) k),
    first_token_lem (b'@' ∷ c ∷ name) (behind w3 p) (at_visible, t) (StartsBlank-behind w3 p g3),
    trim_space-behind w3 p g3 k,
  )

  -- White space, a short id, an arrow or the word "to", a name that is not empty behind "@", and a
  -- payload or nothing: `Parse` returns the short id, the name without the "@" and the payload, and
  -- no command.
  pub parse_target_message :
      (v id w1 arrow w2 name w3 p z : Text)
      → valid_short_id u id ≡ true
      → IsToken id
      → id ≢ []
      → IsToken arrow
      → arrow ≢ []
      → is_arrow u arrow ≡ true
      → IsToken name
      → name ≢ []
      → IsGap w1
      → IsGap w2
      → IsGap w3
      → IsTrimmed p
      → IsBlank v
      → IsBlank z
      → parse u (v ++ ((id ++ (w1 ++ (arrow ++ (w2 ++ (b'@' ∷ name ++ behind w3 p))))) ++ z)) cfg
        ≡ target_result id name p
  unfolding parse_rest
  parse_target_message v id w1 [] w2 name w3 p z ok t ne ta na arrow tn nn g1 g2 g3 k hv hz =
      absurd (na refl)
  parse_target_message v id w1 (c ∷ a) w2 [] w3 p z ok t ne ta na arrow tn nn g1 g2 g3 k hv hz =
      absurd (nn refl)
  parse_target_message v id w1 (c ∷ a) w2 (d ∷ name) w3 p z ok t ne ta na arrow tn nn g1 g2 g3 k hv
        hz =
      parse-split v id w1 (c ∷ a ++ (w2 ++ (b'@' ∷ d ∷ name ++ behind w3 p))) z ok t ne g1
        (IsTrimmed-spaced c a w2 _ ta (λ e. cc)
          (IsTrimmed-behind b'@' (d ∷ name) w3 p (at_visible, tn) k))
        (λ e. cc) hv hz
      ∙ rw
          (
            first_token_lem (c ∷ a) (w2 ++ (b'@' ∷ d ∷ name ++ behind w3 p)) ta
                (StartsBlank-gap w2 _ g2),
            arrow,
          )
          (parse_target-behind d id _ w2 name w3 p tn g2 g3 k)
