-- ===== src/World.antt =====
-- What a service of channels-go acts on: the database and its coming failures, the background work
-- that it has started, and what has left the process.
pub mod Triple
pub mod Cases
use fieldwatchai_comms_openk.Prelude.{
  ℕ, suc, ◌≡◌, refl, Bool, true, false, Option, none, some, List, [], ◌∷◌, ◌++◌,
}
use fieldwatchai_comms_openk.Policy.{Action}
use fieldwatchai_comms_openk.Store.{Text, Account, Db, DbError, unavailable, Result, ok, err}
use fieldwatchai_comms_openk.Workflow.{Forward}

-- A started goroutine: `spawnDispatch` and `spawnForward` of ingest.
pub data Job : Type 0 where
  dispatch : Account → ℕ → Text → Text → Action → Job
  deliver : Text → ℕ → Forward → Job

-- `outbound.Message`
pub record Outgoing : Type 0 where
  pub to : Text
  pub body : Text
  pub subject : Text
  pub from : Text
  pub reply_to : Text
  pub in_reply_to : Text
  pub references : Text

-- A message of an address and a text only.
abbrev pub plain : Text → Text → Outgoing
plain to body = record {
  to = to;
  body = body;
  subject = [];
  from = [];
  reply_to = [];
  in_reply_to = [];
  references = [];
}

-- What an adapter has sent, and by which account.
pub record Send : Type 0 where
  pub account_id : ℕ
  pub message : Outgoing

-- Each query and each call of a remote service takes one entry of `faults`, and fails, having done
-- nothing, if that is `true`; with no entry left nothing fails. `drawn` counts the new ids.
pub record World (F : Type 0) : Type 0 where
  pub db : Db F
  pub faults : List Bool
  pub drawn : ℕ
  pub jobs : List Job
  pub sends : List Send
  pub forwards : List (Text × Forward)

abbrev pub M : Type 0 → Type 0 → Type 0
M F A = World F → A × World F

infixl 5 ◌>>=◌ ◌>>◌
abbrev pub ◌>>=◌ : {F A B : Type 0} → M F A → (A → M F B) → M F B
◌>>=◌ m k w = let (a, w') = m w in k a w'

abbrev pub ◌>>◌ : {F B : Type 0} → M F (Unit {0}) → M F B → M F B
◌>>◌ m k w = k (m w).1

abbrev pub pure : {F A : Type 0} → A → M F A
pure a w = (a, w)

abbrev pub next_fault : List Bool → Bool
next_fault [] = false
next_fault (b ∷ faults) = b

abbrev pub later_faults : List Bool → List Bool
later_faults [] = []
later_faults (b ∷ faults) = faults

module _ {F : Type 0} where
  -- Whether the next call fails.
  unfoldable pub fails : M F Bool
  fails w = (next_fault w.faults, record w { faults = later_faults w.faults })

  -- The answer of a statement, `true` being a failure.
  unfoldable pub answer : {A : Type 0} → Bool → (Db F → Result A × Db F) → M F (Result A)
  answer true q w = (err unavailable, w)
  answer false q w = let (r, db') = q w.db in (r, record w { db = db' })

  -- One statement.
  unfoldable pub query : {A : Type 0} → (Db F → Result A × Db F) → M F (Result A)
  unfolding fails answer
  query q w = let (failed, w') = fails w in answer failed q w'

  -- `NewID()`, the stream of new ids being `ids`.
  unfoldable pub new_id : (ℕ → ℕ) → M F ℕ
  new_id ids w = (ids w.drawn, record w { drawn = suc w.drawn })

  unfoldable pub spawn : Job → M F (Unit {0})
  spawn job w = (tt, record w { jobs = w.jobs ++ job ∷ [] })
