-- ===== src/Strdist/Metric.antt =====
-- `Levenshtein` is a metric, and its bounds by the lengths.
use fieldwatchai_comms_openk.Prelude.{ℕ, suc, ◌+◌, ◌-◌, ◌≤◌, max, ◌≡◌, refl, sym, [], ◌∷◌, ◌∙◌}
use fieldwatchai_comms_openk.Prelude.{length, arith, ◌↔◌}
use fieldwatchai_comms_openk.Strdist.{Text, levenshtein}
use fieldwatchai_comms_openk.Strdist.Script.{
  Edit, done, same, change, remove, insert, dist, dist-Edit, dist-le,
}
use fieldwatchai_comms_openk.Strdist.Rows.{levenshtein-eq-dist}

flip : {a b : Text} {n : ℕ} → Edit a b n → Edit b a n
flip done = done
flip (same e s) = same (sym e) (flip s)
flip (change x y s) = change y x (flip s)
flip (remove x s) = insert x (flip s)
flip (insert y s) = remove y (flip s)

-- A script for `a` and `c` of at most `n` edits.
abbrev Within : Text → Text → ℕ → Type 0
Within a c n = (k : ℕ) × Edit a c k × (k ≤ n)

compose : {a b c : Text} {m n : ℕ} → Edit a b m → Edit b c n → Within a c (m + n)
compose {n} done t = (n, t, omega arith)
compose (remove x s) t = let (k, r, h) = compose s t in (suc k, remove x r, omega arith)
compose s (insert z t) = let (k, r, h) = compose s t in (suc k, insert z r, omega arith)
compose (insert y s) (remove _ t) = let (k, r, h) = compose s t in (k, r, omega arith)
compose (insert y s) (same {y = z} e t) =
    let (k, r, h) = compose s t in (suc k, insert z r, omega arith)
compose (insert y s) (change _ z t) =
    let (k, r, h) = compose s t in (suc k, insert z r, omega arith)
compose (same {x} e s) (remove _ t) =
    let (k, r, h) = compose s t in (suc k, remove x r, omega arith)
compose (same e s) (same f t) = let (k, r, h) = compose s t in (k, same (e ∙ f) r, omega arith)
compose (same {x} e s) (change _ z t) =
    let (k, r, h) = compose s t in (suc k, change x z r, omega arith)
compose (change x _ s) (remove _ t) =
    let (k, r, h) = compose s t in (suc k, remove x r, omega arith)
compose (change x _ s) (same {y = z} e t) =
    let (k, r, h) = compose s t in (suc k, change x z r, omega arith)
compose (change x _ s) (change _ z t) =
    let (k, r, h) = compose s t in (suc k, change x z r, omega arith)

dist_comm : (a b : Text) → dist a b ≡ dist b a
dist_comm a b = omega (arith, dist-le (flip (dist-Edit a b)), dist-le (flip (dist-Edit b a)))

dist_triangle : (a b c : Text) → dist a c ≤ dist a b + dist b c
dist_triangle a b c =
    let (k, s, h) = compose (dist-Edit a b) (dist-Edit b c) in omega (arith, dist-le s)

unedited : {a b : Text} {n : ℕ} → Edit a b n → n ≡ 0 → a ≡ b
unedited done h = refl
unedited (same e s) h = cc (e, unedited s h)
unedited (change x y s) h = absurd (omega arith)
unedited (remove x s) h = absurd (omega arith)
unedited (insert y s) h = absurd (omega arith)

copy : (a : Text) → Edit a a 0
copy [] = done
copy (x ∷ a) = same refl (copy a)

length-Edit :
    {a b : Text} {n : ℕ} → Edit a b n → (length a ≤ length b + n) × (length b ≤ length a + n)
length-Edit done = omega arith
length-Edit (same e s) = omega (arith, length-Edit s)
length-Edit (change x y s) = omega (arith, length-Edit s)
length-Edit (remove x s) = omega (arith, length-Edit s)
length-Edit (insert y s) = omega (arith, length-Edit s)

-- Replace the common length and remove or insert the rest.
overwrite : (a b : Text) → Within a b (max (length a) (length b))
overwrite [] [] = (0, done, omega arith)
overwrite [] (y ∷ b) = let (k, s, h) = overwrite [] b in (suc k, insert y s, omega arith)
overwrite (x ∷ a) [] = let (k, s, h) = overwrite a [] in (suc k, remove x s, omega arith)
overwrite (x ∷ a) (y ∷ b) = let (k, s, h) = overwrite a b in (suc k, change x y s, omega arith)

dist_self : (a : Text) → dist a a ≡ 0
dist_self a = omega (arith, dist-le (copy a))

-- `Levenshtein` is a metric: it is 0 exactly between equal texts, the order of its arguments does
-- not matter, and it satisfies the triangle inequality.
pub levenshtein_metric :
    (a b c : Text)
    → ((levenshtein a b ≡ 0) ↔ (a ≡ b))
      × (levenshtein a b ≡ levenshtein b a)
      × (levenshtein a c ≤ levenshtein a b + levenshtein b c)
levenshtein_metric a b c =
    rw
      (
        levenshtein-eq-dist a b,
        levenshtein-eq-dist b a,
        levenshtein-eq-dist a c,
        levenshtein-eq-dist b c,
      )
      ((unedited (dist-Edit a b), λ e. rw e (dist_self b)), dist_comm a b, dist_triangle a b c)

-- `Levenshtein` is at least the difference of the lengths and at most the longer length.
levenshtein_bounds :
    (a b : Text)
    → (length a - length b ≤ levenshtein a b)
      × (length b - length a ≤ levenshtein a b)
      × (levenshtein a b ≤ max (length a) (length b))
levenshtein_bounds a b =
    let sizes = length-Edit (dist-Edit a b) in
    let (k, s, h) = overwrite a b in rw (levenshtein-eq-dist a b) (omega (arith, sizes, dist-le s))
