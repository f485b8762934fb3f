-- ===== src/Drain.antt =====
-- webhook-go/internal/queue/memory.go and webhook-go/internal/drain/drain.go: the buffer between
-- acceptance and the hub, and the worker that empties it.
pub mod Balance
pub mod Progress
pub mod Ending
mod Examples
use fieldwatchai_comms_openk.Prelude.{
  ℕ, suc, ◌<◌, ◌≡◌, Bool, true, false, List, [], ◌∷◌, ◌++◌, length, ltb, if◌then◌else◌,
}
use fieldwatchai_comms_openk.Canonical.{Message}

-- `Memory`
pub record Memory : Type 0 where
  pub items : List Message

-- `Enqueue`
unfoldable pub enqueue : Message → Memory → Memory
enqueue msg q = record { items = q.items ++ msg ∷ [] }

-- `Receive`: every queued message.
unfoldable pub receive : Memory → List Message × Memory
receive q = (q.items, record { items = [] })

-- `Ack`
unfoldable pub ack : Message → Memory → Memory
ack d q = q

-- `Nack`
unfoldable pub nack : Message → Memory → Memory
unfolding enqueue
nack d q = enqueue d q

-- What `handle` does to the queue, where the publisher has taken the message or not.
unfoldable pub handle : Bool → Message → Memory → Memory
unfolding ack nack
handle true d q = ack d q
handle false d q = nack d q

-- `New`: the concurrency is at least one.
unfoldable pub concurrency_of : ℕ → ℕ
concurrency_of n = if ltb n 1 then 1 else n

-- The worker within `drainOnce`: the rest of the batch, the goroutines at work, and what was accepted
-- and published so far.
pub record Worker : Type 0 where
  pub queue : Memory
  pub batch : List Message
  pub running : List Message
  pub accepted : List Message
  pub published : List Message

abbrev pub logged : Bool → Message → List Message → List Message
logged true d log = d ∷ log
logged false d log = log

-- The worker at its start.
abbrev pub idle : Worker
idle = record {
  queue = record { items = [] };
  batch = [];
  running = [];
  accepted = [];
  published = [];
}

-- `accept` is a call of `Enqueue` by a listener at any time. A batch is received when the last one is
-- done (`wg.Wait`), a goroutine starts when the semaphore has room, and those at work end in any order.
pub data Step (concurrency : ℕ) : Worker → Worker → Type 0 where
  accept :
      {w : Worker} (msg : Message)
      → Step concurrency w (record w { queue = enqueue msg w.queue; accepted = msg ∷ w.accepted })
  receive_batch :
      {w : Worker}
      → w.batch ≡ []
      → w.running ≡ []
      → Step concurrency w (record w { queue = (receive w.queue).1; batch = (receive w.queue).0 })
  start :
      {w : Worker} (d : Message) (rest : List Message)
      → w.batch ≡ d ∷ rest
      → length w.running < concurrency
      → Step concurrency w (record w { batch = rest; running = d ∷ w.running })
  finish :
      {w : Worker} (taken : Bool) (xs : List Message) (d : Message) (ys : List Message)
      → w.running ≡ xs ++ d ∷ ys
      → Step concurrency w (record w {
        queue = handle taken d w.queue;
        running = xs ++ ys;
        published = logged taken d w.published;
      })

pub data Run (concurrency : ℕ) : Worker → Worker → Type 0 where
  ended : {w : Worker} → Run concurrency w w
  next : {w v u : Worker} → Step concurrency w v → Run concurrency v u → Run concurrency w u
