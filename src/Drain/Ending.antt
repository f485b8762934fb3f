-- ===== src/Drain/Ending.antt =====
-- `wg.Wait` of drain.go returns: a batch comes to an end, whatever is accepted meanwhile.
use fieldwatchai_comms_openk.Prelude.{
  ℕ, zero, suc, ◌+◌, ◌*◌, ◌<◌, ◌≡◌, ◌≢◌, refl, ap, Bool, true, false, List, [], ◌∷◌, arith, length,
  length-append,
}
use mathlib.Core.WellFounded.{Acc}
use fieldwatchai_comms_openk.Canonical.{Message}
use fieldwatchai_comms_openk.Drain.{
  enqueue, concurrency_of, Worker, Step, accept, receive_batch, start, finish,
}
use fieldwatchai_comms_openk.Drain.Progress.{concurrency_positive}

abbrev is_work : {c : ℕ} {w v : Worker} → Step c w v → Bool
is_work (accept msg) = false
is_work (receive_batch e f) = false
is_work (start d rest e h) = true
is_work (finish taken xs d ys e) = true

-- A goroutine starts or ends, after any number of messages that listeners accept.
pub data Onward (c : ℕ) : Worker → Worker → Type 0 where
  work : {w v : Worker} (s : Step c w v) → is_work s ≡ true → Onward c w v
  meanwhile :
      {w v : Worker} (msg : Message)
      → Onward c (record w { queue = enqueue msg w.queue; accepted = msg ∷ w.accepted }) v
      → Onward c w v

-- The starts and the ends that are left in the batch.
abbrev pub left : Worker → ℕ
left w = 2 * length w.batch + length w.running

work_falls : {c : ℕ} (w v : Worker) (s : Step c w v) → is_work s ≡ true → left v < left w
work_falls w v (accept msg) e = cc e
work_falls w v (receive_batch e f) g = cc g
work_falls w v (start d rest e h) g = omega (arith, ap length e)
work_falls w v (finish taken xs d ys e) g =
    omega (arith, ap length e, length-append xs (d ∷ ys), length-append xs ys)

Onward-falls : {c : ℕ} (w v : Worker) → Onward c w v → left v < left w
Onward-falls w v (work s e) = work_falls w v s e
Onward-falls w v (meanwhile msg o) = Onward-falls _ v o

below-Acc : (c k : ℕ) (w : Worker) → left w < k → Acc (λ v u. Onward c u v) w
below-Acc c zero w h = absurd (omega arith)
below-Acc c (suc k) w h =
    Acc.intro w (λ v o. let falls = Onward-falls w v o in below-Acc c k v (omega arith))

onward : (c : ℕ) → 0 < c → (w : Worker) → left w ≢ 0 → (v : Worker) × Onward c w v
onward c room w h = by_running w.batch w.running refl refl
  where
    by_running :
        (batch running : List Message)
        → w.batch ≡ batch
        → w.running ≡ running
        → (v : Worker) × Onward c w v
    by_running batch (d ∷ ys) e f = (_, work (finish true [] d ys f) refl)
    by_running (d ∷ rest) [] e f =
        let free = ap length f in (_, work (start d rest e (omega arith)) refl)
    by_running [] [] e f = absurd (h (omega (arith, ap length e, ap length f)))

-- Whatever the configured concurrency, and whatever is accepted meanwhile, a batch cannot be worked on
-- for ever: there is no endless sequence of goroutines that start or end without the next batch being
-- received. While a message of the batch is still to be started or is at work, one can start or end.
pub batch_ends :
    (n : ℕ) (w : Worker)
    → Acc (λ v u. Onward (concurrency_of n) u v) w
      × (left w ≢ 0 → (v : Worker) × Onward (concurrency_of n) w v)
batch_ends n w =
    let c = concurrency_of n in
    (below-Acc c (suc (left w)) w (omega arith), onward c (concurrency_positive n) w)
