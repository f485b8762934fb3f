-- ===== src/Store/Select.antt =====
-- Joins, orders and limits of the statements, and what they select.
use fieldwatchai_comms_openk.Prelude.{
  ℕ, ◌≤◌, ◌≡◌, ◌⊎◌, inl, inr, refl, sym, ap, subst, Bool, true, false, Option, none, some, List, [],
  ◌∷◌, ◌++◌, map, arith, keep, All, All-map, In, ltb, if◌then◌else◌, Bool-cases,
}
use fieldwatchai_comms_openk.Store.{no_rows, Result, ok, err}

-- `:one`
abbrev pub one : {A : Type 0} → Option A → Result A
one none = err no_rows
one (some a) = ok a

pub one_lem : {A : Type 0} (o : Option A) (a : A) → one o ≡ ok a → o ≡ some a
one_lem none a e = cc e
one_lem (some b) a e = cc e

module _ {A : Type 0} where
  -- `ORDER BY key DESC LIMIT 1`; which of several rows with one key comes first is open in SQL, and
  -- the first of the table here.
  unfoldable pub top : (A → ℕ) → List A → Option A
  top key [] = none
  top key (x ∷ xs) = elim (top key xs) [
    | none ↦ some x
    | some y ↦ if ltb (key x) (key y) then some y else some x
  ]

  -- `ORDER BY`, by an order that `before` decides; equal rows keep their order.
  unfoldable pub insert_by : (A → A → Bool) → A → List A → List A
  insert_by before x [] = x ∷ []
  insert_by before x (y ∷ ys) =
      let rest = insert_by before x ys in if before y x then y ∷ rest else x ∷ (y ∷ ys)

  unfoldable pub sort_by : (A → A → Bool) → List A → List A
  sort_by before [] = []
  sort_by before (x ∷ xs) = insert_by before x (sort_by before xs)

  -- `UPDATE … SET … WHERE …`
  abbrev pub set_where : (A → Bool) → (A → A) → List A → List A
  set_where p f xs = map (λ x. if p x then f x else x) xs

  top_if :
      (key : A → ℕ) (m x : A) (xs : List A) (o : Option A)
      → ((y : A) → o ≡ some y → In y xs × All (λ z. key z ≤ key y) xs)
      → (o ≡ none → xs ≡ [])
      → (elim o [ none ↦ some x | some y ↦ if ltb (key x) (key y) then some y else some x ])
        ≡ some m
      → In m (x ∷ xs) × All (λ z. key z ≤ key m) (x ∷ xs)
  top_if key m x xs none h k e =
      let q : x ≡ m = ground (arith, e) in (inl (sym q), (ground (arith, ap key q), rw (k refl) tt))
  top_if key m x xs (some y) h k e =
      let r = h y refl in
      elim (Bool-cases (ltb (key x) (key y))) [
        | inl b ↦
            let q : y ≡ m = ground (arith, e, b) in
            subst (λ n. In n (x ∷ xs) × All (λ z. key z ≤ key n) (x ∷ xs)) q
              (inr r.0, (ground (arith, b), r.1))
        | inr b ↦
            let q : x ≡ m = ground (arith, e, b) in
            subst (λ n. In n (x ∷ xs) × All (λ z. key z ≤ key n) (x ∷ xs)) q
              (
                inl refl,
                (
                  omega arith,
                  All-map (λ z. key z ≤ key y) (λ z. key z ≤ key x) xs (λ z l. ground (arith, b, l))
                      r.1,
                ),
              )
      ]

  top-none : (key : A → ℕ) (xs : List A) → top key xs ≡ none → xs ≡ []
  unfolding top
  top-none key [] e = refl
  top-none key (x ∷ xs) e = absurd (none_if (top key xs) e)
    where
      none_if :
          (o : Option A)
          → ¬ (
              (elim o [ none ↦ some x | some y ↦ if ltb (key x) (key y) then some y else some x ])
              ≡ none)
      none_if none e = cc e
      none_if (some y) e = ground (arith, e)

  -- The row selected is one of the rows, and none has a greater key.
  pub top-In :
      (key : A → ℕ) (m : A) (xs : List A)
      → top key xs ≡ some m
      → In m xs × All (λ z. key z ≤ key m) xs
  unfolding top
  top-In key m [] e = cc
  top-In key m (x ∷ xs) e =
      top_if key m x xs (top key xs) (λ y q. top-In key y xs q) (top-none key xs) e

  pub In-keep : (p : A → Bool) (x : A) (xs : List A) → In x (keep p xs) → In x xs × (p x ≡ true)
  In-keep p x [] i = absurd i
  In-keep p x (y ∷ ys) i = kept (p y) refl i (λ k. In-keep p x ys k)
    where
      kept :
          (b : Bool)
          → p y ≡ b
          → In x (if b then y ∷ keep p ys else keep p ys)
          → (In x (keep p ys) → In x ys × (p x ≡ true))
          → In x (y ∷ ys) × (p x ≡ true)
      kept true e (inl q) rest = (inl q, rw q e)
      kept true e (inr k) rest = let r = rest k in (inr r.0, r.1)
      kept false e k rest = let r = rest k in (inr r.0, r.1)

  pub In-append : (x : A) (xs ys : List A) → In x (xs ++ ys) → In x xs ⊎ In x ys
  In-append x [] ys i = inr i
  In-append x (y ∷ xs) ys (inl e) = inl (inl e)
  In-append x (y ∷ xs) ys (inr i) = elim (In-append x xs ys i) [
    | inl k ↦ inl (inr k)
    | inr k ↦ inr k
  ]

module _ {A B : Type 0} where
  -- `JOIN`
  unfoldable pub join : (A → B → Bool) → List A → List B → List (A × B)
  join on [] ys = []
  join on (x ∷ xs) ys = map (λ y. (x, y)) (keep (on x) ys) ++ join on xs ys

  pub In-map : (f : A → B) (z : B) (xs : List A) → In z (map f xs) → (x : A) × In x xs × (z ≡ f x)
  In-map f z [] i = absurd i
  In-map f z (x ∷ xs) (inl e) = (x, inl refl, e)
  In-map f z (x ∷ xs) (inr i) = let r = In-map f z xs i in (r.0, inr r.1, r.2)

module _ {A B : Type 0} where
  pub In-join :
      (on : A → B → Bool) (z : A × B) (xs : List A) (ys : List B)
      → In z (join on xs ys)
      → In z.0 xs × In z.1 ys × (on z.0 z.1 ≡ true)
  unfolding join
  In-join on z [] ys i = absurd i
  In-join on z (x ∷ xs) ys i =
      elim (In-append z (map (λ y. (x, y)) (keep (on x) ys)) (join on xs ys) i) [
        | inl k ↦
            let m = In-map (λ y. (x, y)) z (keep (on x) ys) k in
            let r = In-keep (on x) m.0 ys m.1 in
            let e0 : z.0 ≡ x = ap (λ w. w.0) m.2 in
            let e1 : z.1 ≡ m.0 = ap (λ w. w.1) m.2 in (inl e0, rw e1 r.0, rw (e0, e1) r.1)
        | inr k ↦ let r = In-join on z xs ys k in (inr r.0, r.1, r.2)
      ]
