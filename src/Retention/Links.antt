-- ===== src/Retention/Links.antt =====
-- The reply links of a purge: once those to the old messages are cleared, none is left that keeps them
-- from being deleted.
use fieldwatchai_comms_openk.Prelude.{
  ℕ, ◌≡◌, refl, ◌∙◌, Bool, true, false, ◌&&◌, Option, none, some, List, [], ◌∷◌, arith, length,
  keep, any, ◌==◌, comparable_nat, if◌then◌else◌, Bool-cases, Option-cases, inl, inr, In,
}
use fieldwatchai_comms_openk.Store.{Message}
use fieldwatchai_comms_openk.Store.Queries.{has_id, update}
use fieldwatchai_comms_openk.Store.Keys.{any-update}
use fieldwatchai_comms_openk.Store.Erasing.{is_old, replies_to, unlinked}

module _ {F : Type 0} where
  -- An update that keeps a test keeps the number of the rows that pass it.
  pub length-keep-update :
      (p q : Message F → Bool) (g : Message F → Message F) (ms : List (Message F))
      → ((m : Message F) → p (g m) ≡ p m)
      → length (keep p (update q g ms)) ≡ length (keep p ms)
  unfolding update
  length-keep-update p q g [] h = refl
  length-keep-update p q g (m ∷ ms) h = elim (Bool-cases (q m)) [
    | inl e ↦ ground (arith, e, h m, length-keep-update p q g ms h)
    | inr e ↦ ground (arith, e, length-keep-update p q g ms h)
  ]

  any_mono :
      (p q : Message F → Bool) (ms : List (Message F))
      → ((m : Message F) → p m ≡ true → q m ≡ true)
      → any p ms ≡ true
      → any q ms ≡ true
  any_mono p q [] h e = e
  any_mono p q (m ∷ ms) h e = elim (Bool-cases (p m)) [
    | inl b ↦ ground (arith, h m b)
    | inr b ↦ ground (arith, any_mono p q ms h (ground (arith, b, e)))
  ]

  module _ (u cutoff : ℕ) (ms : List (Message F)) where
    abbrev old : Message F → Bool
    old = is_old u cutoff

    -- The rows whose links are cleared.
    abbrev pub is_cleared : Message F → Bool
    is_cleared m = m.tenant_id == u && replies_to old ms m

    abbrev pub cleared : List (Message F)
    cleared = update is_cleared unlinked ms

    replies_to-cleared : (m : Message F) → replies_to old cleared m ≡ replies_to old ms m
    unfolding is_old
    replies_to-cleared m = elim (Option-cases m.in_reply_to_message_id) [
      | inl e ↦ rw e refl
      | inr x ↦ rw x.1 (any-update is_cleared unlinked (λ o. has_id x.0 o && old o) (λ o. refl) ms)
    ]

    replies_to_tenant :
        (o : Option ℕ)
        → (elim o [ none ↦ false | some i ↦ any (λ n. has_id i n && old n) ms ]) ≡ true
        → (elim o [ none ↦ false | some i ↦ any (λ n. has_id i n && n.tenant_id == u) ms ]) ≡ true
    unfolding is_old
    replies_to_tenant none h = h
    replies_to_tenant (some i) h = any_mono _ _ ms (λ n e. ground (arith, e)) h

    -- A row that is left and keeps its link does not reply to an old one.
    no_old_link :
        (m : Message F)
        → (replies_to (λ o. o.tenant_id == u) ms m ≡ true → (m.tenant_id == u) ≡ true)
        → is_cleared m ≡ false
        → replies_to old ms m ≡ false
    no_old_link m within h = elim (Bool-cases (replies_to old ms m)) [
      | inl e ↦
          let t = within (replies_to_tenant m.in_reply_to_message_id e) in
          absurd (ground (arith, h, e, t))
      | inr e ↦ e
    ]

    -- If replies stay within the tenant, no row that is left replies to an old one.
    pub cleared_links :
        (p : Message F → Bool) (xs : List (Message F))
        → ((m : Message F)
            → In m xs
            → replies_to (λ o. o.tenant_id == u) ms m ≡ true
            → (m.tenant_id == u) ≡ true)
        → any (replies_to old cleared) (keep p (update is_cleared unlinked xs)) ≡ false
    unfolding update
    cleared_links p [] within = refl
    cleared_links p (m ∷ xs) within =
        left (is_cleared m) refl (cleared_links p xs (λ n i. within n (inr i)))
      where
        left :
            (b : Bool)
            → is_cleared m ≡ b
            → any (replies_to old cleared) (keep p (update is_cleared unlinked xs)) ≡ false
            → any
                (replies_to old cleared)
                (keep p ((if b then unlinked m else m) ∷ update is_cleared unlinked xs))
              ≡ false
        left true e rest = elim (Bool-cases (p (unlinked m))) [
          | inl k ↦ ground (arith, k, rest)
          | inr k ↦ ground (arith, k, rest)
        ]
        left false e rest =
            let none_old : replies_to old cleared m ≡ false =
              replies_to-cleared m ∙ no_old_link m (within m (inl refl)) e in
            elim (Bool-cases (p m)) [
              | inl k ↦ ground (arith, k, rest, none_old)
              | inr k ↦ ground (arith, k, rest)
            ]
