-- ===== src/Strdist/Rows.antt =====
-- The rolling rows hold the distances between prefixes, so `levenshtein` is the distance.
use fieldwatchai_comms_openk.Prelude.{ℕ, suc, ◌≤◌, ◌≡◌, refl, ap, ◌∙◌, List, [], ◌∷◌}
use fieldwatchai_comms_openk.Prelude.{length}
use fieldwatchai_comms_openk.Strdist.{Text, cells, next_row, rows, first_row, last_cell}
use fieldwatchai_comms_openk.Strdist.{levenshtein}
use fieldwatchai_comms_openk.Strdist.Script.{Edit, dist, dist-Edit, dist-le, dist-reverse}
use mathlib.Core.List.{reverse_aux}

-- The distances of `a` from `b` and each of its extensions by `rb`. Texts are read backwards: the
-- head of `a` is the rune read last.
prefix_cells : Text → Text → Text → List ℕ
prefix_cells a b [] = []
prefix_cells a b (y ∷ rb) = dist a (y ∷ b) ∷ prefix_cells a (y ∷ b) rb

cells-eq :
    (x : ℕ) (a b rb : Text)
    → cells x (dist (x ∷ a) b) (dist a b) (prefix_cells a b rb) rb ≡ prefix_cells (x ∷ a) b rb
unfolding cells prefix_cells dist
cells-eq x a b [] = refl
cells-eq x a b (y ∷ rb) = ap (◌∷◌ (dist (x ∷ a) (y ∷ b))) (cells-eq x a (y ∷ b) rb)

abbrev full_row : Text → Text → List ℕ
full_row a rb = dist a [] ∷ prefix_cells a [] rb

next_row-eq :
    (x : ℕ) (a rb : Text) → next_row (suc (length a)) x (full_row a rb) rb ≡ full_row (x ∷ a) rb
unfolding next_row dist
next_row-eq x a rb = ap (◌∷◌ (suc (length a))) (cells-eq x a [] rb)

rows-eq :
    (a ra rb : Text) → rows (suc (length a)) (full_row a rb) ra rb ≡ full_row (reverse_aux ra a) rb
unfolding rows
rows-eq a [] rb = refl
rows-eq a (x ∷ ra) rb = rw (next_row-eq x a rb) (rows-eq (x ∷ a) ra rb)

first_row-eq : (b rb : Text) → first_row (length b) rb ≡ length b ∷ prefix_cells [] b rb
unfolding first_row prefix_cells dist
first_row-eq b [] = refl
first_row-eq b (y ∷ rb) = ap (◌∷◌ (length b)) (first_row-eq (y ∷ b) rb)

last_cell-eq :
    (a b rb : Text) → last_cell (dist a b ∷ prefix_cells a b rb) ≡ dist a (reverse_aux rb b)
unfolding last_cell prefix_cells
last_cell-eq a b [] = refl
last_cell-eq a b (y ∷ rb) = last_cell-eq a (y ∷ b) rb

pub levenshtein-eq-dist : (a b : Text) → levenshtein a b ≡ dist a b
unfolding levenshtein dist
levenshtein-eq-dist a b =
    ap last_cell (ap (λ r. rows 1 r a b) (first_row-eq [] b) ∙ rows-eq [] a b)
    ∙ last_cell-eq (reverse_aux a []) [] b
    ∙ dist-reverse a b

-- `Levenshtein` returns the length of a shortest edit script: a script of that length exists, and
-- none is shorter.
pub levenshtein_optimal :
    {n : ℕ} (a b : Text) → Edit a b n → Edit a b (levenshtein a b) × (levenshtein a b ≤ n)
levenshtein_optimal a b s = rw (levenshtein-eq-dist a b) (dist-Edit a b, dist-le s)
