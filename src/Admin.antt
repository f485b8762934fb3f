-- ===== src/Admin.antt =====
-- The administrative services of channels-go: internal/tenants, internal/accounts and
-- internal/channels.
pub mod Accounts
pub mod Channels
pub mod Sound
pub mod Rows
pub mod Calls
pub mod Kept
pub mod KeptLinks
pub mod Keeping
pub mod AccountsKept
pub mod ChannelsKept
pub mod Routes
mod Examples
use fieldwatchai_comms_openk.Prelude.{ℕ, List, Option}
use fieldwatchai_comms_openk.Policy.Float.{Float64}
use fieldwatchai_comms_openk.Store.{
  Text, DbError, no_rows, unique_violation, foreign_key_violation, unavailable,
}

-- What the services take: the new ids, the time of the call, the encryption of credentials, and what
-- `json.Unmarshal` makes of a parser configuration (commands and mode) and of thresholds.
pub record Deps (f : Float64) : Type 0 where
  pub ids : ℕ → ℕ
  pub now : ℕ
  pub encrypt : Text → Text
  pub decode_parser : Text → Option (List Text × Text)
  pub decode_thresholds : Text → Option (Option f.F × Option f.F)

-- `ErrNotFound`, `ErrInvalid`, and every other error.
pub data Failure : Type 0 where
  not_found invalid internal : Failure

pub data Outcome (A : Type 0) : Type 0 where
  done : A → Outcome A
  failed : Failure → Outcome A

-- `pgx.ErrNoRows` is not found.
unfoldable pub missing : DbError → Failure
missing no_rows = not_found
missing unique_violation = internal
missing foreign_key_violation = internal
missing unavailable = internal
