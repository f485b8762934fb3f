-- ===== src/Prelude/Tests.antt =====
-- Boolean tests on the native numbers, the conditional, and equality tests as an interface.
use Prim.Native.Nat.{ℕ, ◌≤◌, ◌<◌, compare, Ordering}
use mathlib.Core.Path.{◌≡◌, refl}
use mathlib.Core.Logic.{◌↔◌, ◌⊎◌, inl, inr}
use mathlib.Core.Bool.{Bool, true, false, ◌&&◌}
use mathlib.Core.Option.{Option, none, some}
use mathlib.Core.List.{List, [], ◌∷◌}
use native.Mathlib.Omega.{arith}

abbrev pub ltb : ℕ → ℕ → Bool
ltb a b = elim (compare a b) [ Ordering.lt ↦ true | _ ↦ false ]

abbrev pub leb : ℕ → ℕ → Bool
leb a b = elim (compare a b) [ Ordering.gt ↦ false | _ ↦ true ]

abbrev pub nat_beq : ℕ → ℕ → Bool
nat_beq a b = elim (compare a b) [ Ordering.eq ↦ true | _ ↦ false ]

infix 1 if◌then◌else◌
abbrev pub if◌then◌else◌ {ℓ} : {A : Type ℓ} → Bool → A → A → A
if true then x else y = x
if false then x else y = y

pub ltb→lt : (a b : ℕ) → ltb a b ≡ true → a < b
ltb→lt a b h = ground arith

pub lt→ltb : (a b : ℕ) → a < b → ltb a b ≡ true
lt→ltb a b h = ground arith

pub leb→le : (a b : ℕ) → leb a b ≡ true → a ≤ b
leb→le a b h = ground arith

pub nat_beq_iff : (a b : ℕ) → (nat_beq a b ≡ true) ↔ (a ≡ b)
nat_beq_iff a b = ground arith

pub ruleset tests = (arith, ltb→lt, lt→ltb, leb→le)

-- To split on a computed value and keep the equation.
pub Bool-cases : (b : Bool) → (b ≡ true) ⊎ (b ≡ false)
Bool-cases true = inl refl
Bool-cases false = inr refl

pub Option-cases {ℓ} : {A : Type ℓ} (o : Option A) → (o ≡ none) ⊎ ((a : A) × (o ≡ some a))
Option-cases none = inl refl
Option-cases (some a) = inr (a, refl)

-- Go's `comparable`: the types with `==`.
pub record Comparable {ℓ} (A : Type ℓ) : Type ℓ where
  pub equal : (x y : A) → Bool
  pub equal_iff : (x y : A) → (equal x y ≡ true) ↔ (x ≡ y)

instance abbrev pub comparable_nat : Comparable ℕ
comparable_nat = record { equal = nat_beq; equal_iff = nat_beq_iff }

infix 50 ◌==◌
abbrev pub ◌==◌ {ℓ} : {A : Type ℓ} ⦃c : Comparable A⦄ → A → A → Bool
◌==◌ ⦃c⦄ x y = c.equal x y

abbrev pub list_beq {ℓ} : {A : Type ℓ} ⦃c : Comparable A⦄ → List A → List A → Bool
list_beq [] [] = true
list_beq [] (y ∷ ys) = false
list_beq (x ∷ xs) [] = false
list_beq (x ∷ xs) (y ∷ ys) = x == y && list_beq xs ys

pub list_beq_iff {ℓ} :
    {A : Type ℓ} ⦃c : Comparable A⦄ (xs ys : List A) → (list_beq xs ys ≡ true) ↔ (xs ≡ ys)
list_beq_iff [] [] = (λ _. refl, λ _. refl)
list_beq_iff [] (y ∷ ys) = (λ h. cc, λ h. cc)
list_beq_iff (x ∷ xs) [] = (λ h. cc, λ h. cc)
list_beq_iff ⦃c⦄ (x ∷ xs) (y ∷ ys) = (
  λ h. ground (arith, c.equal_iff x y, list_beq_iff xs ys),
  λ h. ground (arith, c.equal_iff x y, list_beq_iff xs ys),
)

instance abbrev pub comparable_list {ℓ} : {A : Type ℓ} ⦃c : Comparable A⦄ → Comparable (List A)
comparable_list = record { equal = list_beq; equal_iff = list_beq_iff }

abbrev pub option_beq {ℓ} : {A : Type ℓ} ⦃c : Comparable A⦄ → Option A → Option A → Bool
option_beq none none = true
option_beq none (some y) = false
option_beq (some x) none = false
option_beq (some x) (some y) = x == y

pub option_beq_iff {ℓ} :
    {A : Type ℓ} ⦃c : Comparable A⦄ (x y : Option A) → (option_beq x y ≡ true) ↔ (x ≡ y)
option_beq_iff none none = (λ _. refl, λ _. refl)
option_beq_iff none (some y) = (λ h. cc, λ h. cc)
option_beq_iff (some x) none = (λ h. cc, λ h. cc)
option_beq_iff ⦃c⦄ (some x) (some y) =
    (λ h. ground (arith, c.equal_iff x y), λ h. ground (arith, c.equal_iff x y))

instance abbrev pub comparable_option {ℓ} : {A : Type ℓ} ⦃c : Comparable A⦄ → Comparable (Option A)
comparable_option = record { equal = option_beq; equal_iff = option_beq_iff }

pub ==_refl {ℓ} : {A : Type ℓ} ⦃c : Comparable A⦄ (a : A) → (a == a) ≡ true
==_refl ⦃c⦄ a = (c.equal_iff a a).1 refl

pub ==_eq {ℓ} : {A : Type ℓ} ⦃c : Comparable A⦄ (a b : A) → (a == b) ≡ true → a ≡ b
==_eq ⦃c⦄ a b h = (c.equal_iff a b).0 h

pub ==_ne {ℓ} : {A : Type ℓ} ⦃c : Comparable A⦄ (a b : A) → (a == b) ≡ false → ¬ (a ≡ b)
==_ne ⦃c⦄ a b h p = cc ((c.equal_iff a b).1 p)
