-- ===== src/Parser/Shape.antt =====
-- What every result of `Parse` looks like, and the white space that it ignores.
use fieldwatchai_comms_openk.Prelude.{◌≡◌, ◌≢◌, refl, ap, true, false, [], ◌∷◌, ◌++◌}
use fieldwatchai_comms_openk.Prelude.{comparable_nat, Bool-cases, inl, inr}
use fieldwatchai_comms_openk.Parser.{Text, Unicode, Config, ParseResult, trim_space, first_token}
use fieldwatchai_comms_openk.Parser.{valid_short_id, is_arrow, is_target, target_name}
use fieldwatchai_comms_openk.Parser.{
  parse_command, parse_target, parse_rest, parse_trimmed, parse, failed,
}
use fieldwatchai_comms_openk.Parser.Token.{IsBlank, IsToken, IsTrimmed, first_token_split}
use fieldwatchai_comms_openk.Parser.Token.{trim_space-IsTrimmed, trim_space-around}

-- A result of `Parse`: refused, with a command, or to a target.
pub data IsParsed (u : Unicode) (r : ParseResult) : Type 0 where
  refused :
      r.ok ≡ false
      → r.has_target ≡ false
      → r.target ≡ []
      → r.command ≡ []
      → r.known_command ≡ false
      → r.payload ≡ []
      → IsParsed u r
  commanded :
      r.ok ≡ true
      → valid_short_id u r.short_id ≡ true
      → IsToken r.short_id
      → r.has_target ≡ false
      → r.target ≡ []
      → IsTrimmed r.payload
      → IsParsed u r
  targeted :
      r.ok ≡ true
      → valid_short_id u r.short_id ≡ true
      → IsToken r.short_id
      → r.has_target ≡ true
      → r.target ≢ []
      → IsToken r.target
      → r.command ≡ []
      → r.known_command ≡ false
      → IsTrimmed r.payload
      → IsParsed u r

target_name-IsToken :
    (t : Text) → is_target t ≡ true → IsToken t → IsToken (target_name t) × (target_name t ≢ [])
unfolding is_target target_name
target_name-IsToken [] h k = cc
target_name-IsToken (c ∷ []) h k = cc
target_name-IsToken (c ∷ d ∷ t) h k = rw h (k.1, λ e. cc)

module _ (u : Unicode) (cfg : Config) where
  failed-IsParsed : (id : Text) → IsParsed u (failed id)
  failed-IsParsed id = refused refl refl refl refl refl refl

  parse_command-IsParsed :
      (id rest : Text)
      → valid_short_id u id ≡ true
      → IsToken id
      → IsParsed u (parse_command u cfg id rest)
  unfolding parse_command
  parse_command-IsParsed id rest ok t =
      commanded refl ok t refl refl (trim_space-IsTrimmed (first_token rest).1)

  parse_target-IsParsed :
      (id rest after : Text)
      → valid_short_id u id ≡ true
      → IsToken id
      → IsParsed u (parse_target u cfg id rest after)
  unfolding parse_target
  parse_target-IsParsed id rest after ok t =
      elim (Bool-cases (is_target (first_token (trim_space after)).0)) [
        | inl e ↦ rw e (
            let name = target_name-IsToken _ e (first_token_split (trim_space after)).1 in
            targeted refl ok t refl name.1 name.0 refl refl
              (trim_space-IsTrimmed (first_token (trim_space after)).1))
        | inr e ↦ rw e (parse_command-IsParsed id rest ok t)
      ]

  parse_rest-IsParsed :
      (id rest : Text)
      → valid_short_id u id ≡ true
      → IsToken id
      → IsParsed u (parse_rest u cfg id rest)
  unfolding parse_rest
  parse_rest-IsParsed id [] ok t = failed-IsParsed id
  parse_rest-IsParsed id (c ∷ rest) ok t =
      elim (Bool-cases (is_arrow u (first_token (c ∷ rest)).0)) [
        | inl e ↦ rw e (parse_target-IsParsed id (c ∷ rest) (first_token (c ∷ rest)).1 ok t)
        | inr e ↦ rw e (parse_command-IsParsed id (c ∷ rest) ok t)
      ]

  parse_trimmed-IsParsed : (s : Text) → IsParsed u (parse_trimmed u cfg s)
  unfolding parse_trimmed
  parse_trimmed-IsParsed [] = failed-IsParsed []
  parse_trimmed-IsParsed (c ∷ s) = elim (Bool-cases (valid_short_id u (first_token (c ∷ s)).0)) [
    | inl e ↦ rw e (
        parse_rest-IsParsed (first_token (c ∷ s)).0 (trim_space (first_token (c ∷ s)).1) e
          (first_token_split (c ∷ s)).1)
    | inr e ↦ rw e (failed-IsParsed [])
  ]

  -- Every result of `Parse` is of one of three kinds. It is refused, and has no target, no command
  -- and no payload. Or it has a valid short id without white space, no target, and a trimmed
  -- payload. Or it has such a short id and payload, a target that is a name without white space and
  -- not empty, and no command.
  pub parse-IsParsed : (text : Text) → IsParsed u (parse u text cfg)
  unfolding parse
  parse-IsParsed text = parse_trimmed-IsParsed (trim_space text)

  -- White space around a message changes nothing of its result.
  pub parse-around :
      (v text w : Text) → IsBlank v → IsBlank w → parse u (v ++ (text ++ w)) cfg ≡ parse u text cfg
  unfolding parse
  parse-around v text w hv hw = ap (parse_trimmed u cfg) (trim_space-around v text w hv hw)
