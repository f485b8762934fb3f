-- ===== src/Webhook.antt =====
-- The acceptance of a platform's call: listeners/registry.go and accounts/http.go of webhook-go.
pub mod Lookup
pub mod Accepted
pub mod Fresh
mod Examples
use fieldwatchai_comms_openk.Prelude.{
  ℕ, Bool, true, false, Option, none, some, List, [], ◌∷◌, ◌++◌, if◌then◌else◌,
}
use fieldwatchai_comms_openk.Canonical.{Message}
use fieldwatchai_comms_openk.Drain.{Memory, enqueue}
use fieldwatchai_comms_openk.World.{next_fault, later_faults}

-- What a listener finds in a request: whether the body can be read, whether `Verify` takes it, and what
-- `Parse` or `ParseRequest` returns, `none` being an error.
pub record Inbound : Type 0 where
  pub readable : Bool
  pub verified : Bool
  pub parsed : Option (List Message)

-- The statuses 200, 400, 401 and 500.
pub data Status : Type 0 where
  accepted bad_request unauthorized internal_error : Status

-- The loop of `Handler`; each `Enqueue` takes an entry of `faults` and fails, without effect, if it is
-- `true`.
unfoldable pub enqueue_all : List Message → List Bool → Memory → Status × Memory
enqueue_all [] faults q = (accepted, q)
enqueue_all (m ∷ msgs) faults q =
    let rest = enqueue_all msgs (later_faults faults) (enqueue m q) in
    if next_fault faults then (internal_error, q) else rest

unfoldable pub enqueue_parsed : Option (List Message) → List Bool → Memory → Status × Memory
enqueue_parsed none faults q = (internal_error, q)
enqueue_parsed (some msgs) faults q = enqueue_all msgs faults q

-- `Handler`
unfoldable pub handle : Inbound → List Bool → Memory → Status × Memory
handle r faults q =
    if r.readable
    then if r.verified then enqueue_parsed r.parsed faults q else (unauthorized, q)
    else (bad_request, q)
