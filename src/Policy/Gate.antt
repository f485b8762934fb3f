-- ===== src/Policy/Gate.antt =====
-- The policy gate.
use fieldwatchai_comms_openk.Prelude.{ℕ, ◌≤◌, ◌≡◌, ◌↔◌, ◌⊎◌, true, false, arith}
use fieldwatchai_comms_openk.Policy.{Text, Action, execute, echo_back, clarify}
use fieldwatchai_comms_openk.Policy.{TargetKind, Thresholds, gate, is_group}
use fieldwatchai_comms_openk.Policy.{is_sos, is_high_impact, decide}
use fieldwatchai_comms_openk.Policy.Float.{Float64}

-- How far an action lets a message through.
abbrev pub reach : Action → ℕ
reach execute = 2
reach echo_back = 1
reach _ = 0

module _ (f : Float64) (upper : ℕ → ℕ) where
  -- A message is executed at once exactly if it is an SOS, or if it goes to no group, is not of high
  -- impact and reaches the high threshold.
  pub decide_execute :
      (confidence : f.F) (command : Text) (kind : TargetKind) (th : Thresholds f)
      → (decide f upper confidence command kind th ≡ execute) ↔ (
          (is_sos upper command ≡ true)
          ⊎ ((is_group kind ≡ false)
              × (is_high_impact upper command ≡ false)
              × (f.ge confidence th.high ≡ true)))
  unfolding decide gate
  decide_execute confidence command kind th = (λ h. ground arith, λ h. ground arith)

  -- Let `>=` be transitive. A confidence that is at least another never takes a message less far,
  -- whatever the thresholds; and the gate answers with execute, echo back or clarify only.
  pub decide_mono :
      ((a b c : f.F) → f.ge a b ≡ true → f.ge b c ≡ true → f.ge a c ≡ true)
      → (c d : f.F) (command : Text) (kind : TargetKind) (th : Thresholds f) → f.ge c d ≡ true
      → (reach (decide f upper d command kind th) ≤ reach (decide f upper c command kind th))
        × ((decide f upper c command kind th ≡ execute)
            ⊎ ((decide f upper c command kind th ≡ echo_back)
                ⊎ (decide f upper c command kind th ≡ clarify)))
  unfolding decide gate
  decide_mono trans c d command kind th h =
      (ground (arith, trans c d th.high h, trans c d th.medium h), ground arith)
