-- ===== src/Admin/Rows.antt =====
-- Tables with a unique key, under insertion, change and deletion.
use fieldwatchai_comms_openk.Prelude.{
  ℕ, ◌≡◌, ◌≢◌, inl, inr, refl, sym, ap, ◌∙◌, subst, Bool, true, false, ◌||◌, List, [], ◌∷◌, map,
  arith, keep, any, All, In, In-All, Bool-cases, ◌==◌, ==_ne, ==_eq, comparable_nat,
  comparable_list, if◌then◌else◌,
}

module _ {A : Type 0} where
  -- No two rows have one key.
  abbrev pub Distinct : (A → ℕ) → List A → Type 0
  Distinct key [] = Unit
  Distinct key (x ∷ xs) = All (λ y. key y ≢ key x) xs × Distinct key xs

  pub Distinct-In :
      (key : A → ℕ) (x y : A) (xs : List A)
      → Distinct key xs
      → In x xs
      → In y xs
      → key x ≡ key y
      → x ≡ y
  Distinct-In key x y [] d i j e = absurd i
  Distinct-In key x y (z ∷ xs) d (inl p) (inl q) e = p ∙ sym q
  Distinct-In key x y (z ∷ xs) d (inl p) (inr j) e =
      absurd (In-All (λ v. key v ≢ key z) y xs j d.0 (sym e ∙ ap key p))
  Distinct-In key x y (z ∷ xs) d (inr i) (inl q) e =
      absurd (In-All (λ v. key v ≢ key z) x xs i d.0 (e ∙ ap key q))
  Distinct-In key x y (z ∷ xs) d (inr i) (inr j) e = Distinct-In key x y xs d.1 i j e

  pub new_key :
      (key : A → ℕ) (k : ℕ) (xs : List A)
      → any (λ y. key y == k) xs ≡ false
      → All (λ y. key y ≢ k) xs
  new_key key k [] e = tt
  new_key key k (x ∷ xs) e =
      (==_ne (key x) k (ground (arith, e)), new_key key k xs (ground (arith, e)))

  pub any_or : (p q : A → Bool) (xs : List A) → any (λ x. p x || q x) xs ≡ false → any p xs ≡ false
  any_or p q [] e = refl
  any_or p q (x ∷ xs) e = ground (arith, e, any_or p q xs (ground (arith, e)))

  pub All-keep : (P : A → Type 0) (p : A → Bool) (xs : List A) → All P xs → All P (keep p xs)
  All-keep P p [] h = tt
  All-keep P p (x ∷ xs) h = kept (p x) (All-keep P p xs h.1)
    where
      kept : (b : Bool) → All P (keep p xs) → All P (if b then x ∷ keep p xs else keep p xs)
      kept true r = (h.0, r)
      kept false r = r

  pub Distinct-keep :
      (key : A → ℕ) (p : A → Bool) (xs : List A) → Distinct key xs → Distinct key (keep p xs)
  Distinct-keep key p [] d = tt
  Distinct-keep key p (x ∷ xs) d = kept (p x) (Distinct-keep key p xs d.1)
    where
      kept :
          (b : Bool)
          → Distinct key (keep p xs)
          → Distinct key (if b then x ∷ keep p xs else keep p xs)
      kept true r = (All-keep (λ y. key y ≢ key x) p xs d.0, r)
      kept false r = r

  pub All-keys-map :
      (key : A → ℕ) (g : A → A)
      → ((x : A) → key (g x) ≡ key x)
      → (k : ℕ) (xs : List A) → All (λ y. key y ≢ k) xs
      → All (λ y. key y ≢ k) (map g xs)
  All-keys-map key g same k [] h = tt
  All-keys-map key g same k (x ∷ xs) h =
      (λ e. h.0 (sym (same x) ∙ e), All-keys-map key g same k xs h.1)

  pub Distinct-map :
      (key : A → ℕ) (g : A → A)
      → ((x : A) → key (g x) ≡ key x)
      → (xs : List A) → Distinct key xs
      → Distinct key (map g xs)
  Distinct-map key g same [] d = tt
  Distinct-map key g same (x ∷ xs) d = (
    subst (λ k. All (λ y. key y ≢ k) (map g xs)) (sym (same x))
        (All-keys-map key g same (key x) xs d.0),
    Distinct-map key g same xs d.1,
  )

  pub mapped-In : (g : A → A) (x : A) (xs : List A) → In x xs → In (g x) (map g xs)
  mapped-In g x [] i = absurd i
  mapped-In g x (y ∷ xs) (inl e) = inl (ap g e)
  mapped-In g x (y ∷ xs) (inr i) = inr (mapped-In g x xs i)

  pub kept-In : (p : A → Bool) (x : A) (xs : List A) → In x xs → p x ≡ true → In x (keep p xs)
  kept-In p x [] i e = absurd i
  kept-In p x (y ∷ xs) (inl q) e = let t : p y ≡ true = ap p (sym q) ∙ e in rw t (inl q)
  kept-In p x (y ∷ xs) (inr i) e = either (p y) (kept-In p x xs i e)
    where
      either : (b : Bool) → In x (keep p xs) → In x (if b then y ∷ keep p xs else keep p xs)
      either true j = inr j
      either false j = j

  pub All-set :
      (P : A → Type 0) (g : A → A)
      → ((x : A) → P x → P (g x))
      → (xs : List A) → All P xs
      → All P (map g xs)
  All-set P g h [] a = tt
  All-set P g h (x ∷ xs) a = (h x a.0, All-set P g h xs a.1)

  pub any-none : (p : A → Bool) (x : A) (xs : List A) → In x xs → any p xs ≡ false → p x ≡ false
  any-none p x [] i e = absurd i
  any-none p x (y ∷ xs) (inl q) e = ap p q ∙ ground (arith, e)
  any-none p x (y ∷ xs) (inr i) e = any-none p x xs i (ground (arith, e))

pub member-In : (s : List ℕ) (ts : List (List ℕ)) → any (λ t. t == s) ts ≡ true → In s ts
member-In s [] e = cc e
member-In s (t ∷ ts) e = elim (Bool-cases (t == s)) [
  | inl q ↦ inl (sym (==_eq t s q))
  | inr q ↦ inr (member-In s ts (ground (arith, e, q)))
]
