-- ===== src/Webhook/Examples.antt =====
-- A call of two messages, and a look-up that the cache answers.
use fieldwatchai_comms_openk.Prelude.{
  ℕ, ◌≤◌, ◌+◌, ◌≡◌, refl, true, false, none, some, [], ◌∷◌, arith, codes,
}
use fieldwatchai_comms_openk.Canonical.{Message}
use fieldwatchai_comms_openk.Drain.{Memory, enqueue}
use fieldwatchai_comms_openk.Webhook.{Inbound, internal_error, handle, enqueue_parsed, enqueue_all}
use fieldwatchai_comms_openk.Webhook.Accepted.{Answered, handle-Answered}
use fieldwatchai_comms_openk.Webhook.Lookup.{
  Reply, unreachable, replied, found, lookup_cache_ttl, cached, store, named, answered, or_ask,
  resolve,
}
use fieldwatchai_comms_openk.Webhook.Fresh.{
  NoZero, HasNamed, Moment, Run, ended, next, look_up, looked_up, wait, beginning, resolve_recent,
}

abbrev message : Message
message = record {
  sender_endpoint = [];
  body = record { text = none; attachments = []; location = none };
  meta = record { platform_message_id = []; received_at = []; account_id = []; raw_payload = [] };
}

abbrev call : Inbound
call = record { readable = true; verified = true; parsed = some (message ∷ message ∷ []) }

abbrev idle_queue : Memory
idle_queue = record { items = [] }

-- The second message is not queued, and the platform is told to try again.
failed_run :
    handle call (false ∷ true ∷ []) idle_queue ≡ (internal_error, record { items = message ∷ [] })
unfolding handle enqueue_parsed enqueue_all enqueue
failed_run = refl

handle-Answered_example :
    Answered call idle_queue
      (handle call (false ∷ true ∷ []) idle_queue).0
      (handle call (false ∷ true ∷ []) idle_queue).1
handle-Answered_example = handle-Answered call (false ∷ true ∷ []) idle_queue

abbrev reply : Reply
reply = replied 200 (some (codes "acc"))

sms_plain : NoZero (codes "sms")
sms_plain = (λ e. cc e, (λ e. cc e, (λ e. cc e, tt)))

abbrev start : Moment
start = beginning 100

-- A look-up that asks, and half a minute.
abbrev asked : Moment
asked = record (looked_up 101 (codes "sms") (codes "1") reply start) { time = 130 }

asked-Run : Run start asked
asked-Run =
    next (look_up 101 (codes "sms") (codes "1") reply (omega arith) sms_plain)
      (next (wait 130 (omega arith)) ended)

cached_run :
    (resolve 130 131 (codes "sms") (codes "1") unreachable asked.resolver).0 ≡ found (codes "acc")
unfolding resolve cached or_ask answered named store
cached_run = refl

resolve_recent_example :
    (at : ℕ) × HasNamed
      (codes "sms")
      (codes "1")
      (codes "acc")
      at
      (looked_up 131 (codes "sms") (codes "1") unreachable asked).exchanges
    × (130 ≤ at + lookup_cache_ttl)
resolve_recent_example =
    resolve_recent 100 131 asked (codes "sms") (codes "1") unreachable (codes "acc") asked-Run
      (omega arith) sms_plain cached_run
