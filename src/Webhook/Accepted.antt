-- ===== src/Webhook/Accepted.antt =====
-- What the status of a call says of the queue.
use fieldwatchai_comms_openk.Prelude.{
  ◌≡◌, ◌⊎◌, inl, inr, refl, sym, ap, ◌∙◌, Bool, true, false, Option, none, some, List, [], ◌∷◌,
  ◌++◌, append_assoc, append-nil, if◌then◌else◌,
}
use fieldwatchai_comms_openk.Canonical.{Message}
use fieldwatchai_comms_openk.Drain.{Memory, enqueue}
use fieldwatchai_comms_openk.World.{next_fault, later_faults}
use fieldwatchai_comms_openk.Webhook.{
  Inbound, Status, accepted, bad_request, unauthorized, internal_error, enqueue_all, enqueue_parsed,
  handle,
}

-- The queue after the loop: all of the messages behind what was queued, or some first ones of them.
abbrev pub Queued : List Message → Memory → Status → Memory → Type 0
Queued msgs q accepted v = v.items ≡ q.items ++ msgs
Queued msgs q bad_request v = ⊥
Queued msgs q unauthorized v = ⊥
Queued msgs q internal_error v =
    (done : List Message) × (m : Message) × (left : List Message) × (msgs ≡ done ++ m ∷ left)
    × (v.items ≡ q.items ++ done)

enqueue_all-Queued :
    (msgs : List Message) (faults : List Bool) (q : Memory)
    → Queued msgs q (enqueue_all msgs faults q).0 (enqueue_all msgs faults q).1
unfolding enqueue_all enqueue
enqueue_all-Queued [] faults q = sym (append-nil q.items)
enqueue_all-Queued (m ∷ msgs) faults q =
    by_fault (next_fault faults) (enqueue_all-Queued msgs (later_faults faults) (enqueue m q))
  where
    later : (s : Status) (v : Memory) → Queued msgs (enqueue m q) s v → Queued (m ∷ msgs) q s v
    later accepted v h = h ∙ append_assoc q.items (m ∷ []) msgs
    later internal_error v (done, n, left, e1, e2) =
        (m ∷ done, n, left, ap (λ l. m ∷ l) e1, e2 ∙ append_assoc q.items (m ∷ []) done)
    later bad_request v h = h
    later unauthorized v h = h

    by_fault :
        (b : Bool)
        → let rest = enqueue_all msgs (later_faults faults) (enqueue m q) in
          Queued msgs (enqueue m q) rest.0 rest.1
          → let r = if b then (internal_error, q) else rest in Queued (m ∷ msgs) q r.0 r.1
    by_fault true h = ([], m, msgs, refl, sym (append-nil q.items))
    by_fault false h = later _ _ h

-- The outcomes of a call.
abbrev pub Answered : Inbound → Memory → Status → Memory → Type 0
Answered r q s v =
    ((s ≡ accepted)
      × (r.verified ≡ true)
      × ((msgs : List Message) × (r.parsed ≡ some msgs) × (v.items ≡ q.items ++ msgs)))
    ⊎ ((s ≡ internal_error) × (r.parsed ≡ none) × (v.items ≡ q.items))
    ⊎ ((s ≡ internal_error)
        × ((done : List Message) × (m : Message) × (left : List Message) × (r.parsed
              ≡ some (done ++ m ∷ left))
            × (v.items ≡ q.items ++ done)))
    ⊎ (((s ≡ bad_request) ⊎ (s ≡ unauthorized)) × (v.items ≡ q.items))

looped_lem :
    (r : Inbound) (msgs : List Message) (q : Memory) (s : Status) (v : Memory)
    → r.verified ≡ true
    → r.parsed ≡ some msgs
    → Queued msgs q s v
    → Answered r q s v
looped_lem r msgs q accepted v e p h = inl (refl, e, (msgs, p, h))
looped_lem r msgs q internal_error v e p (done, m, left, e1, e2) =
    inr (inr (inl (refl, (done, m, left, p ∙ ap some e1, e2))))
looped_lem r msgs q bad_request v e p h = absurd h
looped_lem r msgs q unauthorized v e p h = absurd h

-- A call, whichever calls of `Enqueue` fail. With status 200 the request was verified, and every message
-- that the listener found is queued, in order, behind what was queued. With 500 the listener has failed
-- and the queue is unchanged; or the messages before some message are queued, and that one and those
-- behind it are not. With 400 and 401 the queue is unchanged.
pub handle-Answered :
    (r : Inbound) (faults : List Bool) (q : Memory)
    → Answered r q (handle r faults q).0 (handle r faults q).1
unfolding handle enqueue_parsed
handle-Answered r faults q = by_tests r.readable r.verified r.parsed refl refl
  where
    by_tests :
        (b c : Bool) (o : Option (List Message))
        → r.verified ≡ c
        → r.parsed ≡ o
        → let v : Status × Memory =
            if b
            then if c then enqueue_parsed o faults q else (unauthorized, q)
            else (bad_request, q) in
          Answered r q v.0 v.1
    by_tests false c o e p = inr (inr (inr (inl refl, refl)))
    by_tests true false o e p = inr (inr (inr (inr refl, refl)))
    by_tests true true none e p = inr (inl (refl, p, refl))
    by_tests true true (some msgs) e p =
        looped_lem r msgs q _ _ e p (enqueue_all-Queued msgs faults q)
