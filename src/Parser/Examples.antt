-- ===== src/Parser/Examples.antt =====
-- Runs of the parser, and the theorems at concrete messages.
use fieldwatchai_comms_openk.Prelude.{
  ◌≡◌, refl, false, [], ◌∷◌, ◌++◌, codes, is_upper, is_lower, ◌||◌, leb, ◌&&◌, to_upper, to_lower,
  is_space,
}
use fieldwatchai_comms_openk.Parser.{
  Text, Unicode, Config, trim_space, trim_left, trim_right, first_token, equal_fold, contains_fold,
}
use fieldwatchai_comms_openk.Parser.{valid_short_id, is_arrow, is_target, target_name}
use fieldwatchai_comms_openk.Parser.{parse_command, parse_target, parse_rest, parse_trimmed, parse}
use fieldwatchai_comms_openk.Parser.Grammar.{
  behind, command_result, target_result, parse_command_message, parse_target_message,
}
use fieldwatchai_comms_openk.Parser.Shape.{IsParsed, parse-IsParsed, parse-around}

abbrev ascii : Unicode
ascii = record {
  letter = λ r. is_upper r || is_lower r;
  digit = λ r. leb b'0' r && leb r b'9';
  upper = to_upper;
  lower = to_lower;
  fold = to_lower;
}

abbrev known : Config
known = record { commands = codes "STATUS" ∷ codes "NEEDS" ∷ [] }

runs :
    (parse ascii (codes " 42 status  all fine ") known
      ≡ command_result ascii known (codes "42") (codes "STATUS") (codes "all fine"))
    × (parse ascii (codes "42 to @abaco we have room") known
        ≡ target_result ascii known (codes "42") (codes "abaco") (codes "we have room"))
    × ((parse ascii (codes "42") known).ok ≡ false)
    × ((parse ascii (codes "not-an-id x") known).ok ≡ false)
    × ((parse ascii (codes "42 to abaco") known).command ≡ codes "TO")
unfolding parse parse_trimmed parse_rest parse_target parse_command trim_space trim_left trim_right
    first_token valid_short_id is_arrow is_target target_name equal_fold contains_fold is_space
    is_upper is_lower to_upper to_lower
runs = (refl, refl, refl, refl, refl)

abbrev gap : Text
gap = codes " "

parse_command_message_example :
    parse ascii
      (gap ++ ((codes "42" ++ (gap ++ (codes "Needs" ++ behind gap (codes "water")))) ++ gap))
      known
    ≡ command_result ascii known (codes "42") (codes "Needs") (codes "water")
unfolding is_space trim_left trim_right valid_short_id is_arrow equal_fold is_upper is_lower
    to_lower
parse_command_message_example =
    parse_command_message ascii known gap (codes "42") gap (codes "Needs") gap (codes "water") gap
      refl (refl, (refl, tt)) (λ e. cc) (refl, (refl, (refl, (refl, (refl, tt))))) (λ e. cc) refl
      ((refl, tt), λ e. cc) ((refl, tt), λ e. cc) (refl, refl) (refl, tt) (refl, tt)

parse_target_message_example :
    parse ascii
      (gap
        ++ ((codes "42"
              ++ (gap ++ (codes "TO" ++ (gap ++ (b'@' ∷ codes "hq" ++ behind gap (codes "hi"))))))
            ++ gap))
      known
    ≡ target_result ascii known (codes "42") (codes "hq") (codes "hi")
unfolding is_space trim_left trim_right valid_short_id is_arrow equal_fold is_upper is_lower
    to_lower
parse_target_message_example =
    parse_target_message ascii known gap (codes "42") gap (codes "TO") gap (codes "hq") gap
      (codes "hi") gap refl (refl, (refl, tt)) (λ e. cc) (refl, (refl, tt)) (λ e. cc) refl
      (refl, (refl, tt)) (λ e. cc) ((refl, tt), λ e. cc) ((refl, tt), λ e. cc) ((refl, tt), λ e. cc)
      (refl, refl) (refl, tt) (refl, tt)

parse-IsParsed_example : IsParsed ascii (parse ascii (codes "42 status") known)
parse-IsParsed_example = parse-IsParsed ascii known (codes "42 status")

parse-around_example :
    parse ascii (codes " 42 status ") known ≡ parse ascii (codes "42 status") known
unfolding is_space
parse-around_example = parse-around ascii known gap (codes "42 status") gap (refl, tt) (refl, tt)
