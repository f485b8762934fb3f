-- ===== src/Policy/Bounds.antt =====
-- The range and the monotonicity of the confidence, and the minutes of the echo text.
use fieldwatchai_comms_openk.Prelude.{ℕ, ◌+◌, ◌*◌, ◌≤◌, ◌<◌, ◌≡◌, Bool, true, false, not, ◌&&◌}
use fieldwatchai_comms_openk.Prelude.{max, arith, if◌then◌else◌}
use fieldwatchai_comms_openk.Policy.{ShortIdMatch, TargetMatch, ScoreInput, is_routable, score}
use fieldwatchai_comms_openk.Policy.{short_id_factor, penalise_target, echo_minutes}
use fieldwatchai_comms_openk.Policy.Float.{Float64, InUnit, IsFloat64}

module _ (f : Float64) (law : IsFloat64 f) where
  tenths-InUnit : (n : ℕ) → n ≤ 10 → InUnit f (f.tenths n)
  tenths-InUnit n h = (law.tenths_ge 0 n (omega arith) h, law.tenths_ge n 10 h (omega arith))

  mul-InUnit : (s : f.F) (n : ℕ) → n ≤ 10 → InUnit f s → InUnit f (f.mul s (f.tenths n))
  mul-InUnit s n h u = (law.mul_nonneg s n h u, law.ge_trans _ s _ u.1 (law.mul_shrinks s n h u))

  short_id_factor-InUnit : (m : ShortIdMatch) → InUnit f (short_id_factor f m)
  unfolding short_id_factor
  short_id_factor-InUnit ShortIdMatch.exact = tenths-InUnit 10 (omega arith)
  short_id_factor-InUnit ShortIdMatch.levenshtein_1 =
      mul-InUnit _ 7 (omega arith) (tenths-InUnit 10 (omega arith))
  short_id_factor-InUnit ShortIdMatch.levenshtein_2 =
      mul-InUnit _ 5 (omega arith) (tenths-InUnit 10 (omega arith))
  short_id_factor-InUnit ShortIdMatch.no_match = tenths-InUnit 0 (omega arith)

  penalise_target-InUnit :
      (m : TargetMatch) (s : f.F) → InUnit f s → InUnit f (penalise_target f m s)
  unfolding penalise_target
  penalise_target-InUnit TargetMatch.exact s u = u
  penalise_target-InUnit TargetMatch.levenshtein_1 s u = mul-InUnit s 6 (omega arith) u
  penalise_target-InUnit TargetMatch.ambiguous s u = mul-InUnit s 3 (omega arith) u
  penalise_target-InUnit TargetMatch.other s u = mul-InUnit s 2 (omega arith) u

  if-InUnit : (b : Bool) (s t : f.F) → InUnit f s → InUnit f t → InUnit f (if b then s else t)
  if-InUnit true s t u v = u
  if-InUnit false s t u v = v

  -- `Score` returns a confidence between 0 and 1.
  pub score-InUnit : (i : ScoreInput) → InUnit f (score f i)
  unfolding score
  score-InUnit i =
      let s = short_id_factor-InUnit i.short_id_match in
      let t = if-InUnit i.has_target _ _ (penalise_target-InUnit i.target_match _ s) s in
      if-InUnit (not (is_routable i.short_id_match)) _ _ (tenths-InUnit 0 (omega arith))
        (if-InUnit (i.has_command && not i.known_command) _ _ (mul-InUnit _ 8 (omega arith) t) t)

  unresolved_le : (s : f.F) → InUnit f s → f.ge (f.tenths 2) (f.mul s (f.tenths 2)) ≡ true
  unresolved_le s u = rw (law.unit_mul 2 (omega arith)) at (
      law.mul_mono (f.tenths 10) s (f.tenths 2) (tenths-InUnit 10 (omega arith)) u
        (tenths-InUnit 2 (omega arith)) u.1)

  if_le :
      (b : Bool) (x s t : f.F)
      → f.ge x s ≡ true
      → f.ge x t ≡ true
      → f.ge x (if b then s else t) ≡ true
  if_le true x s t p q = p
  if_le false x s t p q = q

  -- A message to a target that is not resolved has a confidence of at most 0.2, however well its
  -- short id matches.
  pub score_unresolved_target :
      (m : ShortIdMatch) (has_command known_command : Bool)
      → f.ge (f.tenths 2) (
          score f (record {
            short_id_match = m;
            has_target = true;
            target_match = TargetMatch.other;
            has_command = has_command;
            known_command = known_command;
          }))
        ≡ true
  unfolding score penalise_target
  score_unresolved_target m has_command known_command =
      let u = short_id_factor-InUnit m in
      let bound = unresolved_le _ u in
      let t = mul-InUnit _ 2 (omega arith) u in
      if_le (not (is_routable m)) _ _ _ (law.tenths_ge 0 2 (omega arith) (omega arith)) (
        if_le (has_command && not known_command) _ _ _
          (law.ge_trans _ _ _ bound (law.mul_shrinks _ 8 (omega arith) t)) bound)

-- The minutes that the echo text names: at least one, never more than the recall window unless that
-- is below a minute, and less than a minute short of it.
pub echo_minutes_bounds :
    (recall_seconds : ℕ)
    → (1 ≤ echo_minutes recall_seconds)
      × (echo_minutes recall_seconds * 60 ≤ max recall_seconds 60)
      × (recall_seconds < (echo_minutes recall_seconds + 1) * 60)
unfolding echo_minutes
echo_minutes_bounds recall_seconds = (ground arith, ground arith, ground arith)
