-- ===== src/Strdist/Script.antt =====
-- What an edit distance is: the length of a shortest script of edits, and a recursive distance that
-- is such a length.
use fieldwatchai_comms_openk.Prelude.{ℕ, zero, suc, ◌+◌, ◌≤◌, ◌≡◌, refl, [], ◌∷◌, ◌++◌, arith}
use fieldwatchai_comms_openk.Prelude.{length, subst, ◌==◌, comparable_nat, Bool-cases, inl, inr}
use fieldwatchai_comms_openk.Prelude.{==_eq, ◌⊎◌, sym}
use fieldwatchai_comms_openk.Strdist.{Text, min3, cost}
use mathlib.Core.List.{reverse, reverse-cons, reverse-reverse, append-nil}

-- `Edit a b n`: a script of `n` insertions, removals and substitutions turns `a` into `b`.
pub data Edit : Text → Text → ℕ → Type 0 where
  done : Edit [] [] zero
  same : {x y : ℕ} {a b : Text} {n : ℕ} → x ≡ y → Edit a b n → Edit (x ∷ a) (y ∷ b) n
  change : {a b : Text} {n : ℕ} (x y : ℕ) → Edit a b n → Edit (x ∷ a) (y ∷ b) (suc n)
  remove : {a b : Text} {n : ℕ} (x : ℕ) → Edit a b n → Edit (x ∷ a) b (suc n)
  insert : {a b : Text} {n : ℕ} (y : ℕ) → Edit a b n → Edit a (y ∷ b) (suc n)

pub resize : {a b : Text} {m n : ℕ} → m ≡ n → Edit a b m → Edit a b n
resize {a} {b} e s = subst (λ k. Edit a b k) e s

unfoldable pub dist : Text → Text → ℕ
dist [] b = length b
dist (x ∷ a) [] = suc (length a)
dist (x ∷ a) (y ∷ b) = min3 (dist a (y ∷ b) + 1) (dist (x ∷ a) b + 1) (dist a b + cost x y)

pub min3-le : (a b c : ℕ) → (min3 a b c ≤ a) × (min3 a b c ≤ b) × (min3 a b c ≤ c)
unfolding min3
min3-le a b c = ground arith

pub cost-le-one : (x y : ℕ) → cost x y ≤ 1
unfolding cost
cost-le-one x y = ground arith

pub cost_self : (x y : ℕ) → x ≡ y → cost x y ≡ 0
unfolding cost
cost_self x y e = ground arith

pub dist-nil : (a : Text) → dist a [] ≡ length a
unfolding dist
dist-nil [] = refl
dist-nil (x ∷ a) = refl

pub dist-remove : (x : ℕ) (a b : Text) → dist (x ∷ a) b ≤ suc (dist a b)
unfolding dist
dist-remove x a [] = omega (arith, dist-nil a)
dist-remove x a (y ∷ b) =
    omega (arith, min3-le (dist a (y ∷ b) + 1) (dist (x ∷ a) b + 1) (dist a b + cost x y))

pub dist-insert : (y : ℕ) (a b : Text) → dist a (y ∷ b) ≤ suc (dist a b)
unfolding dist
dist-insert y [] b = omega arith
dist-insert y (x ∷ a) b =
    omega (arith, min3-le (dist a (y ∷ b) + 1) (dist (x ∷ a) b + 1) (dist a b + cost x y))

pub dist-change : (x y : ℕ) (a b : Text) → dist (x ∷ a) (y ∷ b) ≤ dist a b + cost x y
unfolding dist
dist-change x y a b =
    omega (arith, min3-le (dist a (y ∷ b) + 1) (dist (x ∷ a) b + 1) (dist a b + cost x y))

-- No script is shorter than the distance.
pub dist-le : {a b : Text} {n : ℕ} → Edit a b n → dist a b ≤ n
unfolding dist
dist-le done = omega arith
dist-le (same {x} {y} {a} {b} e s) = omega (arith, dist-change x y a b, dist-le s, cost_self x y e)
dist-le (change {a} {b} x y s) = omega (arith, dist-change x y a b, dist-le s, cost-le-one x y)
dist-le (remove {a} {b} x s) = omega (arith, dist-remove x a b, dist-le s)
dist-le (insert {a} {b} y s) = omega (arith, dist-insert y a b, dist-le s)

insert_all : (b : Text) → Edit [] b (length b)
insert_all [] = done
insert_all (y ∷ b) = insert y (insert_all b)

remove_all : (a : Text) → Edit a [] (length a)
remove_all [] = done
remove_all (x ∷ a) = remove x (remove_all a)

replace_head : (x y : ℕ) {a b : Text} {n : ℕ} → Edit a b n → Edit (x ∷ a) (y ∷ b) (n + cost x y)
unfolding cost
replace_head x y s = elim (Bool-cases (x == y)) [
  | inl e ↦ resize (rw e (omega arith)) (same (==_eq x y e) s)
  | inr e ↦ resize (rw e (omega arith)) (change x y s)
]

min3-cases : (a b c : ℕ) → (min3 a b c ≡ a) ⊎ ((min3 a b c ≡ b) ⊎ (min3 a b c ≡ c))
unfolding min3
min3-cases a b c = ground arith

min3-Edit : {a b : Text} {l m n : ℕ} → Edit a b l → Edit a b m → Edit a b n → Edit a b (min3 l m n)
min3-Edit {l} {m} {n} r s t = elim (min3-cases l m n) [
  | inl e ↦ resize (sym e) r
  | inr (inl e) ↦ resize (sym e) s
  | inr (inr e) ↦ resize (sym e) t
]

-- Some script has the length of the distance.
pub dist-Edit : (a b : Text) → Edit a b (dist a b)
unfolding dist
dist-Edit [] b = insert_all b
dist-Edit (x ∷ a) [] = remove_all (x ∷ a)
dist-Edit (x ∷ a) (y ∷ b) =
    min3-Edit (resize (omega arith) (remove x (dist-Edit a (y ∷ b))))
      (resize (omega arith) (insert y (dist-Edit (x ∷ a) b))) (replace_head x y (dist-Edit a b))

-- Scripts can be appended and reversed.
Edit-append : {a b c d : Text} {m n : ℕ} → Edit a b m → Edit c d n → Edit (a ++ c) (b ++ d) (m + n)
Edit-append done t = resize (omega arith) t
Edit-append (same e s) t = same e (Edit-append s t)
Edit-append (change x y s) t = resize (omega arith) (change x y (Edit-append s t))
Edit-append (remove x s) t = resize (omega arith) (remove x (Edit-append s t))
Edit-append (insert y s) t = resize (omega arith) (insert y (Edit-append s t))

pub Edit-reverse : {a b : Text} {n : ℕ} → Edit a b n → Edit (reverse a) (reverse b) n
Edit-reverse done = done
Edit-reverse (same {x} {y} {a} {b} e s) =
    rw (reverse-cons x a, reverse-cons y b)
      (resize (omega arith) (Edit-append (Edit-reverse s) (same e done)))
Edit-reverse (change {a} {b} x y s) =
    rw (reverse-cons x a, reverse-cons y b)
      (resize (omega arith) (Edit-append (Edit-reverse s) (change x y done)))
Edit-reverse (remove {a} {b} x s) =
    rw (reverse-cons x a, ← append-nil (reverse b))
      (resize (omega arith) (Edit-append (Edit-reverse s) (remove x done)))
Edit-reverse (insert {a} {b} y s) =
    rw (reverse-cons y b, ← append-nil (reverse a))
      (resize (omega arith) (Edit-append (Edit-reverse s) (insert y done)))

dist_unreverse :
    (a b : Text) {n : ℕ} → Edit (reverse (reverse a)) (reverse (reverse b)) n → dist a b ≤ n
dist_unreverse a b s = dist-le (rw (reverse-reverse a, reverse-reverse b) at s)

-- So the distance does not depend on the end from which it is computed.
pub dist-reverse : (a b : Text) → dist (reverse a) (reverse b) ≡ dist a b
dist-reverse a b = omega (
  arith,
  dist-le (Edit-reverse (dist-Edit a b)),
  dist_unreverse a b (Edit-reverse (dist-Edit (reverse a) (reverse b))),
)
