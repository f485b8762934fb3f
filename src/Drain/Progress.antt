-- ===== src/Drain/Progress.antt =====
-- The worker can always finish: with a publisher that takes every message, all that was accepted is
-- published.
use fieldwatchai_comms_openk.Prelude.{ℕ, ◌<◌, ◌≡◌, refl, Bool, true, List, [], ◌∷◌, arith}
use fieldwatchai_comms_openk.Canonical.{Message}
use fieldwatchai_comms_openk.Drain.{
  Memory, receive, ack, handle, concurrency_of, Worker, idle, receive_batch, start, finish, Run,
  ended, next,
}
use fieldwatchai_comms_openk.Drain.Balance.{count, drain-Balanced}

Run-append : {c : ℕ} (w v u : Worker) → Run c w v → Run c v u → Run c w u
Run-append w v u ended q = q
Run-append w v u (next {v = x} s r) q = next s (Run-append x v u r q)

pub concurrency_positive : (n : ℕ) → 0 < concurrency_of n
unfolding concurrency_of
concurrency_positive n = ground arith

module _ (c : ℕ) (room : 0 < c) (accepted : List Message) where
  abbrev at : Memory → List Message → List Message → List Message → Worker
  at q batch running published = record {
    queue = q;
    batch = batch;
    running = running;
    accepted = accepted;
    published = published;
  }

  finish_running :
      (q : Memory) (batch running published : List Message)
      → (log : List Message) × Run c (at q batch running published) (at q batch [] log)
  unfolding handle ack
  finish_running q batch [] published = (published, ended)
  finish_running q batch (d ∷ ys) published =
      let r = finish_running q batch ys (d ∷ published) in
      (r.0, next (finish true [] d ys refl) r.1)

  finish_batch :
      (q : Memory) (batch published : List Message)
      → (log : List Message) × Run c (at q batch [] published) (at q [] [] log)
  unfolding handle ack
  finish_batch q [] published = (published, ended)
  finish_batch q (d ∷ rest) published =
      let r = finish_batch q rest (d ∷ published) in
      (r.0, next (start d rest refl room) (next (finish true [] d [] refl) r.1))

  finish_all :
      (q : Memory) (batch running published : List Message)
      → (log : List Message) × Run c
          (at q batch running published)
          (at (record { items = [] }) [] [] log)
  unfolding receive
  finish_all q batch running published =
      let r = finish_running q batch running published in
      let s = finish_batch q batch r.0 in
      let t = finish_batch (record { items = [] }) q.items s.0 in
      (t.0, Run-append _ _ _ r.1 (Run-append _ _ _ s.1 (next (receive_batch refl refl) t.1)))

-- From every state that the worker can reach, whatever its configured concurrency, it can go on to one
-- in which nothing is queued, in a batch or at work, and, among the messages that pass any test, as
-- many are published as were accepted.
pub drain_completes :
    (n : ℕ) (w : Worker)
    → Run (concurrency_of n) idle w
    → (v : Worker) × Run (concurrency_of n) w v
      × (v.accepted ≡ w.accepted)
      × (v.queue.items ≡ [])
      × (v.batch ≡ [])
      × (v.running ≡ [])
      × ((p : Message → Bool) → count p v.published ≡ count p w.accepted)
drain_completes n w r =
    let c = concurrency_of n in
    let f =
      finish_all c (concurrency_positive n) w.accepted w.queue w.batch w.running w.published in
    let v : Worker = at c (concurrency_positive n) w.accepted (record { items = [] }) [] [] f.0 in
    (
      v,
      f.1,
      refl,
      refl,
      refl,
      refl,
      λ p. omega (arith, (drain-Balanced p c v (Run-append idle w v r f.1)).0),
    )
