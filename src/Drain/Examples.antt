-- ===== src/Drain/Examples.antt =====
-- The worker at a run that publishes one of two messages.
use fieldwatchai_comms_openk.Prelude.{
  ◌≤◌, ◌≡◌, refl, Bool, true, false, none, [], ◌∷◌, length, arith,
}
use fieldwatchai_comms_openk.Prelude.{◌≢◌}
use mathlib.Core.WellFounded.{Acc}
use fieldwatchai_comms_openk.Canonical.{Message}
use fieldwatchai_comms_openk.Drain.{
  enqueue, receive, ack, nack, handle, concurrency_of, Worker, idle, accept, receive_batch, start,
  finish, Run, ended, next,
}
use fieldwatchai_comms_openk.Drain.Balance.{count, Balanced, drain-Balanced}
use fieldwatchai_comms_openk.Drain.Ending.{Onward, left, batch_ends}
use fieldwatchai_comms_openk.Drain.Progress.{drain_completes}

abbrev message : Message
message = record {
  sender_endpoint = [];
  body = record { text = none; attachments = []; location = none };
  meta = record { platform_message_id = []; received_at = []; account_id = []; raw_payload = [] };
}

-- One message is given back to the queue, and another is still to be received.
abbrev later : Worker
later = record {
  queue = record { items = message ∷ message ∷ [] };
  batch = [];
  running = [];
  accepted = message ∷ message ∷ [];
  published = [];
}

later-Run : Run (concurrency_of 0) idle later
unfolding enqueue receive ack nack handle concurrency_of
later-Run = next (accept message) (
    next (receive_batch refl refl) (
      next (start message [] refl (omega arith))
        (next (accept message) (next (finish false [] message [] refl) ended))))

drain-Balanced_example : Balanced (λ m. true) later × (length later.running ≤ concurrency_of 0)
drain-Balanced_example = drain-Balanced (λ m. true) (concurrency_of 0) later later-Run

drain_completes_example :
    (v : Worker) × Run (concurrency_of 0) later v
    × (v.accepted ≡ later.accepted)
    × (v.queue.items ≡ [])
    × (v.batch ≡ [])
    × (v.running ≡ [])
    × ((p : Message → Bool) → count p v.published ≡ count p later.accepted)
drain_completes_example = drain_completes 0 later later-Run

batch_ends_example :
    Acc (λ v u. Onward (concurrency_of 0) u v) later
    × (left later ≢ 0 → (v : Worker) × Onward (concurrency_of 0) later v)
batch_ends_example = batch_ends 0 later
