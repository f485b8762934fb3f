-- ===== src/Ingest/Persist.antt =====
-- `CreateInboundMessage` and what follows it: the message is stored once.
use fieldwatchai_comms_openk.Prelude.{
  ℕ, ◌≡◌, ◌⊎◌, sym, ap, subst, ◌∙◌, true, false, none, some, List, [], ◌∷◌, ◌++◌, any,
}
use fieldwatchai_comms_openk.Policy.{Action}
use fieldwatchai_comms_openk.Policy.Float.{Float64}
use fieldwatchai_comms_openk.Store.{
  Text, Message, Db, no_rows, unique_violation, foreign_key_violation, unavailable, Result, ok, err,
}
use fieldwatchai_comms_openk.Store.Queries.{
  has_key, has_id, holds_key, get_message_id_by_platform_id,
}
use fieldwatchai_comms_openk.World.{Job, World, M, ◌>>=◌, ◌>>◌, query, pure}
use fieldwatchai_comms_openk.World.Triple.{
  Cond, Triple, pure-Triple, bind-Triple, then-Triple, query-Triple, new_id-Triple,
}
use fieldwatchai_comms_openk.Ingest.Base.{Deps, internal, failed}
use fieldwatchai_comms_openk.Ingest.Steps.{persist, receipt}
use fieldwatchai_comms_openk.Ingest.Effect.{
  IsWork, IsRowOf, Same, IsAdded, Change, IsStored, Effect, Created, create-Created, Found,
  get-Found,
}

module _ (f : Float64) (d : Deps f) (db0 : Db f.F) (jobs0 : List Job)
    (Q : Message f.F → Type 0) where
  -- The row has just been added.
  abbrev pub Fresh : Message f.F → Cond f.F
  Fresh m db jobs = IsAdded db0 jobs0 Q m db × (jobs ≡ jobs0)

  -- What the stored row makes of a condition on the change and the started work.
  pub stored_lem :
      (a : ℕ) (p : Text) (id : ℕ) (action : Action) (m : Message f.F) (db : Db f.F)
      (jobs : List Job)
      → IsRowOf a p id action m
      → holds_key m db0.messages ≡ false
      → any (has_id m.id) db0.messages ≡ false
      → Change db0 jobs0 Q action m db
      → (jobs ≡ jobs0) ⊎ ((j : Job) × IsWork action id j × (jobs ≡ jobs0 ++ j ∷ []))
      → IsStored db0 jobs0 Q a p id action db jobs
  stored_lem a p id action m db jobs of fresh_key fresh_id change started = record {
    new_key = keyed a p of.1 of.2 fresh_key;
    new_id = ap (λ i. any (has_id i) db0.messages) (sym of.0) ∙ fresh_id;
    row = m;
    of = of;
    change = change;
    started = started;
  }
    where
      keyed :
          (a : ℕ) (p : Text)
          → m.account_id ≡ some a
          → m.platform_message_id ≡ p
          → holds_key m db0.messages ≡ false
          → any (has_key a p) db0.messages ≡ false
      keyed a p e1 e2 h =
          subst (λ q. any (has_key a q) db0.messages ≡ false) e2
            (subst
              (λ o.
                (elim o [
                  | none ↦ false
                  | some x ↦ any (has_key x m.platform_message_id) db0.messages
                ])
                ≡ false)
              e1 h)

  module _ (row : ℕ → Message f.F) (a : ℕ) (p : Text) (action : Action)
      (continue : ℕ → M f.F (Unit {0})) (of : (id : ℕ) → IsRowOf a p id action (row id))
      (next : (id : ℕ)
        → Triple (Fresh (row id)) (continue id) (λ _. IsStored db0 jobs0 Q a p id action)) where
    look_up :
        (existing : Result ℕ)
        → Triple
            (Found db0 jobs0 Q a p existing)
            (pure (elim existing [ ok old ↦ receipt old true action | err e ↦ failed internal ]))
            (Effect db0 jobs0 Q a p)
    look_up (ok old) = pure-Triple _ (λ db jobs h. h)
    look_up (err e) = pure-Triple _ (λ db jobs h. h)

    stored_at :
        (id : ℕ)
        → Triple
            (Fresh (row id))
            (do continue id; pure (receipt id false action))
            (Effect db0 jobs0 Q a p)
    stored_at id =
        then-Triple (IsStored db0 jobs0 Q a p id action) _ _ (next id)
          (pure-Triple _ (λ db jobs h. h))

    added :
        (id stored : ℕ) (w : World f.F)
        → stored ≡ id
        → Fresh (row id) w.db w.jobs
        → let r = continue stored w in
          Effect db0 jobs0 Q a p (receipt stored false action) r.1.db r.1.jobs
    added id stored w e h = rw e ((stored_at id).at w h)

    inserted :
        (id : ℕ) (r : Result ℕ)
        → Triple
            (Created db0 jobs0 Q (row id) r)
            (elim r [
              | ok stored ↦ do continue stored; pure (receipt stored false action)
              | err no_rows ↦ do
                existing ← query (get_message_id_by_platform_id a p)
                pure (elim existing [ ok old ↦ receipt old true action | err e ↦ failed internal ])
              | err e ↦ pure (failed internal)
            ])
            (Effect db0 jobs0 Q a p)
    inserted id (ok stored) = record { at = λ w h. added id stored w (h.0 ∙ (of id).0) (h.1, h.2) }
    inserted id (err no_rows) =
        bind-Triple (Found db0 jobs0 Q a p) _ _
          (query-Triple _ (λ db jobs s. s) (get-Found db0 jobs0 Q a p)) look_up
    inserted id (err unique_violation) = pure-Triple _ (λ db jobs h. h)
    inserted id (err foreign_key_violation) = pure-Triple _ (λ db jobs h. h)
    inserted id (err unavailable) = pure-Triple _ (λ db jobs h. h)

    -- Once the row is as told and what follows it does as told, so does the whole.
    pub persist-Triple :
        Triple (Same db0 jobs0 Q) (persist f d row a p action continue) (Effect db0 jobs0 Q a p)
    unfolding persist
    persist-Triple =
        bind-Triple (λ id. Same db0 jobs0 Q) _ _ (new_id-Triple _ (λ i db jobs s. s))
          (λ id.
            bind-Triple (Created db0 jobs0 Q (row id)) _ _
              (query-Triple _ (λ db jobs s. s) (create-Created db0 jobs0 Q (row id))) (inserted id))
