-- ===== src/Store/Keys.antt =====
-- The keys of the message table.
use fieldwatchai_comms_openk.Prelude.{
  ℕ, ◌≡◌, refl, sym, ap, ◌∙◌, Bool, true, some, List, [], ◌∷◌, arith, In, any, Bool-cases, inl, inr,
  ==_refl, comparable_nat, comparable_list,
}
use fieldwatchai_comms_openk.Store.{Text, Message}
use fieldwatchai_comms_openk.Store.Queries.{has_key, update}

module _ {F : Type 0} where
  pub any-In :
      (p : Message F → Bool) (m : Message F) (ms : List (Message F))
      → In m ms
      → p m ≡ true
      → any p ms ≡ true
  any-In p m [] i h = absurd i
  any-In p m (n ∷ ms) (inl e) h = let q : p n ≡ true = ap p (sym e) ∙ h in ground (arith, q)
  any-In p m (n ∷ ms) (inr i) h = ground (arith, any-In p m ms i h)

  module _ (p : Message F → Bool) (g : Message F → Message F) (q : Message F → Bool)
      (keeps : (m : Message F) → q (g m) ≡ q m) where
    -- An update that keeps a test keeps which rows pass it.
    pub any-update : (ms : List (Message F)) → any q (update p g ms) ≡ any q ms
    unfolding update
    any-update [] = refl
    any-update (m ∷ ms) = elim (Bool-cases (p m)) [
      | inl h ↦ ground (arith, h, keeps m, any-update ms)
      | inr h ↦ ground (arith, h, any-update ms)
    ]

  -- A row has the key that it has.
  pub has_key_lem :
      (a : ℕ) (p : Text) (m : Message F)
      → m.account_id ≡ some a
      → m.platform_message_id ≡ p
      → has_key a p m ≡ true
  unfolding has_key
  has_key_lem a p m e1 e2 = rw (e1, e2, ==_refl a) (==_refl ⦃c = comparable_list⦄ p)
