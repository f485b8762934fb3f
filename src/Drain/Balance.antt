-- ===== src/Drain/Balance.antt =====
-- No message is lost: what was accepted is queued, in a batch, at work or published.
use fieldwatchai_comms_openk.Prelude.{
  ℕ, ◌+◌, ◌≤◌, ◌≡◌, refl, ap, ◌∙◌, Bool, true, false, List, [], ◌∷◌, ◌++◌, arith, length, keep,
  length-append, keep-append,
}
use fieldwatchai_comms_openk.Canonical.{Message}
use fieldwatchai_comms_openk.Drain.{
  enqueue, receive, ack, nack, handle, Worker, idle, Step, accept, receive_batch, start, finish,
  Run, ended, next,
}

module _ (p : Message → Bool) where
  -- How many messages pass a test.
  abbrev pub count : List Message → ℕ
  count xs = length (keep p xs)

  count-append : (xs ys : List Message) → count (xs ++ ys) ≡ count xs + count ys
  count-append xs ys =
      ap (length {A = Message}) (keep-append p xs ys) ∙ length-append (keep p xs) (keep p ys)

  -- Every accepted message that passes the test is somewhere, once.
  abbrev pub Balanced : Worker → Type 0
  Balanced w =
      count w.accepted
      ≡ count w.queue.items + (count w.batch + (count w.running + count w.published))

  step-Balanced : {c : ℕ} (w v : Worker) → Step c w v → Balanced w → Balanced v
  unfolding enqueue receive handle ack nack
  step-Balanced w _ (accept msg) b = ground (arith, b, count-append w.queue.items (msg ∷ []))
  step-Balanced w _ (receive_batch e r) b = ground (arith, b, ap count e)
  step-Balanced w _ (start d rest e l) b = ground (arith, b, ap count e)
  step-Balanced w _ (finish true xs d ys e) b =
      ground (arith, b, ap count e, count-append xs (d ∷ ys), count-append xs ys)
  step-Balanced w _ (finish false xs d ys e) b = ground (
    arith,
    b,
    ap count e,
    count-append xs (d ∷ ys),
    count-append xs ys,
    count-append w.queue.items (d ∷ []),
  )

  Run-Balanced : {c : ℕ} (w v : Worker) → Run c w v → Balanced w → Balanced v
  Run-Balanced w _ ended b = b
  Run-Balanced w v (next {v = u} s r) b = Run-Balanced u v r (step-Balanced w u s b)

-- The number of goroutines at work.
step_room : {c : ℕ} (w v : Worker) → Step c w v → length w.running ≤ c → length v.running ≤ c
step_room w _ (accept msg) h = h
step_room w _ (receive_batch e r) h = h
step_room w _ (start d rest e l) h = omega (arith, l)
step_room w _ (finish taken xs d ys e) h =
    omega (arith, h, ap (length {A = Message}) e, length-append xs (d ∷ ys), length-append xs ys)

Run-room : {c : ℕ} (w v : Worker) → Run c w v → length w.running ≤ c → length v.running ≤ c
Run-room w _ ended h = h
Run-room w v (next {v = u} s r) h = Run-room u v r (step_room w u s h)

-- However the listeners, the worker and its goroutines take turns, and whichever messages the
-- publisher takes: among the messages that pass any test, those accepted are as many as those in the
-- queue, in the rest of the batch, at work and published together, so none is lost and none is
-- published more often than it was accepted; and no more goroutines are at work than the concurrency allows.
pub drain-Balanced :
    (p : Message → Bool) (c : ℕ) (w : Worker) → Run c idle w → Balanced p w × (length w.running ≤ c)
drain-Balanced p c w r = (Run-Balanced p idle w r refl, Run-room idle w r (omega arith))
