-- ===== src/Resolver/Order.antt =====
-- The alternatives are sorted, stably, by distance.
use fieldwatchai_comms_openk.Prelude.{
  ℕ, ◌≤◌, ◌≡◌, refl, List, [], ◌∷◌, All, All-map, keep, arith, ltb, ◌==◌, comparable_nat,
}
use fieldwatchai_comms_openk.Prelude.{Bool-cases, inl, inr}
use fieldwatchai_comms_openk.Resolver.{Alt, insert, sort}

-- Distances do not fall along the list.
abbrev pub IsSorted : List Alt → Type 0
IsSorted [] = Unit
IsSorted (a ∷ alts) = All (λ b. a.distance ≤ b.distance) alts × IsSorted alts

All-insert :
    (n : ℕ) (a : Alt) (alts : List Alt)
    → n ≤ a.distance
    → All (λ b. n ≤ b.distance) alts
    → All (λ b. n ≤ b.distance) (insert a alts)
unfolding insert
All-insert n a [] h k = (h, tt)
All-insert n a (b ∷ alts) h k = ground (arith, All-insert n a alts h k.1)

insert-IsSorted : (a : Alt) (alts : List Alt) → IsSorted alts → IsSorted (insert a alts)
unfolding insert
insert-IsSorted a [] s = (tt, tt)
insert-IsSorted a (b ∷ alts) s = elim (Bool-cases (ltb b.distance a.distance)) [
  | inl h ↦ rw h (All-insert b.distance a alts (ground arith) s.0, insert-IsSorted a alts s.1)
  | inr h ↦
      let le : a.distance ≤ b.distance = ground arith in
      rw h ((le, All-map _ _ alts (λ c k. omega arith) s.0), s)
]

pub sort-IsSorted : (alts : List Alt) → IsSorted (sort alts)
unfolding sort
sort-IsSorted [] = tt
sort-IsSorted (a ∷ alts) = insert-IsSorted a (sort alts) (sort-IsSorted alts)

-- The alternatives at one distance.
abbrev pub at : ℕ → List Alt → List Alt
at n alts = keep (λ b. b.distance == n) alts

at-insert : (n : ℕ) (a : Alt) (alts : List Alt) → at n (insert a alts) ≡ at n (a ∷ alts)
unfolding insert
at-insert n a [] = refl
at-insert n a (b ∷ alts) = ground (arith, at-insert n a alts)

-- Sorting keeps the alternatives of each distance, in their order.
pub at-sort : (n : ℕ) (alts : List Alt) → at n (sort alts) ≡ at n alts
unfolding sort
at-sort n [] = refl
at-sort n (a ∷ alts) = ground (arith, at-insert n a (sort alts), at-sort n alts)
