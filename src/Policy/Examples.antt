-- ===== src/Policy/Examples.antt =====
-- Runs of the policy over fixed-point numbers, and the theorems at concrete inputs.
use fieldwatchai_comms_openk.Prelude.{
  ◌+◌, ◌*◌, ◌≤◌, ◌<◌, ◌≡◌, ◌⊎◌, ◌↔◌, refl, true, false, codes, to_upper,
}
use fieldwatchai_comms_openk.Policy.{
  execute, echo_back, clarify, ShortIdMatch, TargetMatch, ScoreInput, score, Thresholds,
}
use fieldwatchai_comms_openk.Policy.{
  no_target, to_group, decide, gate, is_sos, is_high_impact, is_group, echo_minutes, echo_text,
  decimal, decimal_digits, short_id_factor, penalise_target,
}
use fieldwatchai_comms_openk.Policy.Float.{InUnit, millionths, millionths-IsFloat64}
use fieldwatchai_comms_openk.Policy.Bounds.{
  score-InUnit, score_unresolved_target, echo_minutes_bounds,
}
use fieldwatchai_comms_openk.Policy.Gate.{reach, decide_execute, decide_mono}

abbrev defaults : Thresholds millionths
defaults = record { high = 900000; medium = 500000 }

abbrev near_miss : ScoreInput
near_miss = record {
  short_id_match = ShortIdMatch.levenshtein_1;
  has_target = false;
  target_match = TargetMatch.other;
  has_command = true;
  known_command = false;
}

-- 0.7 * 0.8
score-near_miss : score millionths near_miss ≡ 560000
unfolding score short_id_factor penalise_target
score-near_miss = refl

-- Rows of policy_test.go.
decide_table :
    (decide millionths to_upper 100000 (codes "sos") no_target defaults ≡ execute)
    × (decide millionths to_upper 990000 (codes "STATUS") to_group defaults ≡ echo_back)
    × (decide millionths to_upper 990000 (codes "DAMAGE") no_target defaults ≡ echo_back)
    × (decide millionths to_upper 600000 (codes "STATUS") no_target defaults ≡ echo_back)
    × (decide millionths to_upper 300000 (codes "STATUS") no_target defaults ≡ clarify)
unfolding decide gate is_sos is_high_impact to_upper
decide_table = (refl, refl, refl, refl, refl)

echo_two_minutes :
    echo_text (codes "42") (codes "42 x") 120
    ≡ codes "[Forwarded to 42: 42 x. Reply 'OOPS' within 2 minutes to recall.]"
unfolding echo_text echo_minutes decimal decimal_digits
echo_two_minutes = refl

score-InUnit_example : InUnit millionths (score millionths near_miss)
score-InUnit_example = score-InUnit millionths millionths-IsFloat64 near_miss

score_unresolved_target_example :
    millionths.ge 200000 (
      score millionths
        (record near_miss { short_id_match = ShortIdMatch.exact; has_target = true }))
    ≡ true
score_unresolved_target_example =
    score_unresolved_target millionths millionths-IsFloat64 ShortIdMatch.exact true false

echo_minutes_bounds_example :
    (1 ≤ echo_minutes 150) × (echo_minutes 150 * 60 ≤ 150) × (150 < (echo_minutes 150 + 1) * 60)
echo_minutes_bounds_example = echo_minutes_bounds 150

decide_execute_example :
    (decide millionths to_upper 950000 (codes "STATUS") no_target defaults ≡ execute) ↔ (
      (is_sos to_upper (codes "STATUS") ≡ true)
      ⊎ ((is_group no_target ≡ false)
          × (is_high_impact to_upper (codes "STATUS") ≡ false)
          × (millionths.ge 950000 defaults.high ≡ true)))
decide_execute_example =
    decide_execute millionths to_upper 950000 (codes "STATUS") no_target defaults

decide_mono_example :
    (reach (decide millionths to_upper 400000 (codes "STATUS") no_target defaults)
      ≤ reach (decide millionths to_upper 700000 (codes "STATUS") no_target defaults))
    × ((decide millionths to_upper 700000 (codes "STATUS") no_target defaults ≡ execute)
        ⊎ ((decide millionths to_upper 700000 (codes "STATUS") no_target defaults ≡ echo_back)
            ⊎ (decide millionths to_upper 700000 (codes "STATUS") no_target defaults ≡ clarify)))
decide_mono_example =
    decide_mono millionths to_upper millionths-IsFloat64.ge_trans 700000 400000 (codes "STATUS")
      no_target defaults refl
