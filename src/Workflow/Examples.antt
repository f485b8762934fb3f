-- ===== src/Workflow/Examples.antt =====
-- Runs of the delivery, and the theorems at concrete replies.
use fieldwatchai_comms_openk.Prelude.{ℕ, zero, suc, ◌≡◌, refl, false, arith}
use fieldwatchai_comms_openk.Workflow.{
  status, Round, delivered, rejected, exhausted, forward, attempt, conclude, is_success,
  is_rejection, retryable_client_error,
}
use fieldwatchai_comms_openk.Workflow.Retries.{Ends, IsTransient, forward-Ends, forward-IsTransient}

abbrev answers : ℕ → Round
answers zero = record { cancelled = false; reply = status 503 }
answers (suc zero) = record { cancelled = false; reply = status 401 }
answers (suc (suc n)) = record { cancelled = false; reply = status 200 }

abbrev always : ℕ → ℕ → Round
always code i = record { cancelled = false; reply = status code }

runs :
    (forward 3 answers ≡ (delivered, 3))
    × (forward 2 answers ≡ (exhausted, 2))
    × (forward 3 (always 422) ≡ (rejected 422, 1))
    × (forward 0 (always 403) ≡ (exhausted, 1))
unfolding forward attempt conclude is_success is_rejection retryable_client_error
runs = (refl, refl, refl, refl)

forward-Ends_example : Ends answers 3 0 (forward 3 answers).1 (forward 3 answers).0
forward-Ends_example = forward-Ends answers 3

forward-IsTransient_example : IsTransient (answers 1).reply
unfolding forward attempt conclude is_success is_rejection retryable_client_error
forward-IsTransient_example = forward-IsTransient answers 3 1 (omega arith)
