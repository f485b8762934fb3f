-- ===== src/Strdist/Examples.antt =====
-- Runs of the string distances, and the theorems at concrete texts.
use fieldwatchai_comms_openk.Prelude.{◌+◌, ◌≤◌, ◌≡◌, refl, ◌↔◌, ◌⊎◌, ◌≢◌, [], map, keep}
use fieldwatchai_comms_openk.Prelude.{codes, to_upper}
use fieldwatchai_comms_openk.Strdist.{levenshtein, soundex, is_letter}
use fieldwatchai_comms_openk.Strdist.Script.{Edit, done, same, remove}
use fieldwatchai_comms_openk.Strdist.Rows.{levenshtein_optimal}
use fieldwatchai_comms_openk.Strdist.Metric.{levenshtein_metric}
use fieldwatchai_comms_openk.Strdist.Code.{IsCode, soundex-IsCode}

kitten_sitting : levenshtein (codes "kitten") (codes "sitting") ≡ 3
unfolding levenshtein
kitten_sitting = refl

empty_abc : levenshtein [] (codes "abc") ≡ 3
unfolding levenshtein
empty_abc = refl

-- The table of strdist_test.go.
soundex_table :
    (soundex to_upper (codes "Robert") ≡ codes "R163")
    × (soundex to_upper (codes "Rupert") ≡ codes "R163")
    × (soundex to_upper (codes "Ashcraft") ≡ codes "A261")
    × (soundex to_upper (codes "Tymczak") ≡ codes "T522")
    × (soundex to_upper (codes "Pfister") ≡ codes "P236")
    × (soundex to_upper (codes "42") ≡ [])
unfolding soundex to_upper
soundex_table = (refl, refl, refl, refl, refl, refl)

levenshtein_optimal_example :
    Edit (codes "HMB") (codes "HB") (levenshtein (codes "HMB") (codes "HB"))
    × (levenshtein (codes "HMB") (codes "HB") ≤ 1)
levenshtein_optimal_example =
    levenshtein_optimal (codes "HMB") (codes "HB")
      (same {x = b'H'} refl (remove b'M' (same {x = b'B'} refl done)))

levenshtein_metric_example :
    ((levenshtein (codes "42") (codes "43") ≡ 0) ↔ (codes "42" ≡ codes "43"))
    × (levenshtein (codes "42") (codes "43") ≡ levenshtein (codes "43") (codes "42"))
    × (levenshtein (codes "42") (codes "143")
        ≤ levenshtein (codes "42") (codes "43") + levenshtein (codes "43") (codes "143"))
levenshtein_metric_example = levenshtein_metric (codes "42") (codes "43") (codes "143")

soundex-IsCode_example :
    ((keep is_letter (map to_upper (codes "hub")) ≡ []) × (soundex to_upper (codes "hub") ≡ []))
    ⊎ ((keep is_letter (map to_upper (codes "hub")) ≢ []) × IsCode (soundex to_upper (codes "hub")))
soundex-IsCode_example = soundex-IsCode to_upper (codes "hub")
