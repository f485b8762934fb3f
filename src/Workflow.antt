-- ===== src/Workflow.antt =====
-- channels-go/internal/workflow/workflow.go: the payload for a consumer product, and its delivery
-- with retries.
pub mod Retries
mod Examples
use fieldwatchai_comms_openk.Prelude.{
  ℕ, zero, suc, ◌+◌, Bool, true, false, ◌&&◌, ◌||◌, Option, none, some, List, [], ◌∷◌,
}
use fieldwatchai_comms_openk.Prelude.{ltb, leb, ◌==◌, comparable_nat, if◌then◌else◌}
use fieldwatchai_comms_openk.Canonical.{Location}
use fieldwatchai_comms_openk.Store.{Text}

-- `Forward`; an empty or omitted field is `none`.
pub record Forward : Type 0 where
  pub message_id : ℕ
  pub tenant_id : ℕ
  pub channel_id : Option ℕ
  pub account_id : Option ℕ
  pub account_type : Text
  pub platform : Text
  pub contact_id : Option ℕ
  pub sender_endpoint : Text
  pub command : Text
  pub payload : Text
  pub text : Text
  pub attachments : Option Text
  pub location : Option Location
  pub received_at : Text

-- What a request meets: it cannot be built, the transport fails, or the consumer answers.
pub data Reply : Type 0 where
  unbuildable transport_failure : Reply
  status : ℕ → Reply

-- What one round of the loop meets: whether the context ends during its backoff, and its reply.
pub record Round : Type 0 where
  pub cancelled : Bool
  pub reply : Reply

-- `Forward`'s result: `nil`, the permanent error, an error of the context or of the request, or the
-- last transient error.
pub data Delivery : Type 0 where
  delivered : Delivery
  rejected : ℕ → Delivery
  aborted exhausted : Delivery

-- `retryableClientError`
unfoldable pub retryable_client_error : ℕ → Bool
retryable_client_error code = code == 401 || code == 403 || code == 408 || code == 429

unfoldable pub is_success : ℕ → Bool
is_success code = leb 200 code && ltb code 300

-- The third case of the switch, behind the first two.
unfoldable pub is_rejection : ℕ → Bool
unfolding retryable_client_error is_success
is_rejection code =
    if is_success code
    then false
    else if retryable_client_error code
    then false
    else leb 400 code && ltb code 500

-- The rest of a round behind the backoff; `more` is what the later rounds give.
unfoldable pub conclude : Reply → Delivery × ℕ → Delivery × ℕ
conclude unbuildable more = (aborted, 0)
conclude transport_failure more = (more.0, suc more.1)
conclude (status code) more =
    if is_success code
    then (delivered, 1)
    else if is_rejection code
    then (rejected code, 1)
    else (more.0, suc more.1)

-- The loop from round `i` on, with `left` rounds left: the result, and the number of requests sent.
unfoldable pub attempt : ℕ → ℕ → (ℕ → Round) → Delivery × ℕ
attempt zero i rounds = (exhausted, 0)
attempt (suc left) i rounds =
    let more = attempt left (suc i) rounds in
    if ltb 0 i && (rounds i).cancelled then (aborted, 0) else conclude (rounds i).reply more

-- `Forwarder.Forward`
unfoldable pub forward : ℕ → (ℕ → Round) → Delivery × ℕ
forward attempts rounds = attempt (if ltb attempts 1 then 1 else attempts) 0 rounds
