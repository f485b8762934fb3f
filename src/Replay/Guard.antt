-- ===== src/Replay/Guard.antt =====
-- The guard of `Run`: a refused run has no effect, and a run leaves the guard as it found it.
use fieldwatchai_comms_openk.Prelude.{ℕ, ◌≡◌, ◌≢◌, inl, inr, refl, sym, ap}
use fieldwatchai_comms_openk.Prelude.{Bool, true, false, not, List, [], ◌∷◌, arith, keep, In, any}
use fieldwatchai_comms_openk.Prelude.{◌==◌, ==_refl, ==_eq, ==_ne, comparable_nat, if◌then◌else◌}
use fieldwatchai_comms_openk.World.{World, pure}
use fieldwatchai_comms_openk.Replay.{
  Request, Reading, refused, invalid, already_running, acquire, release, run_dry, run_acquired, run,
}
use fieldwatchai_comms_openk.Replay.Effect.{Ran, run_rows-Ran}

keep_others :
    (t : ℕ) (ts : List ℕ) → any (λ x. x == t) ts ≡ false → keep (λ x. not (x == t)) ts ≡ ts
keep_others t [] e = refl
keep_others t (x ∷ ts) e =
    let other : not (x == t) ≡ true = ground (arith, e) in
    rw other (ap (λ xs. x ∷ xs) (keep_others t ts (ground (arith, e))))

In-any : (t : ℕ) (ts : List ℕ) → In t ts → any (λ x. x == t) ts ≡ false → ⊥
In-any t [] i h = absurd i
In-any t (x ∷ ts) (inl e) h = ==_ne x t (ground (arith, h)) (sym e)
In-any t (x ∷ ts) (inr i) h = In-any t ts i (ground (arith, h))

release-acquire : (t : ℕ) (ts : List ℕ) → any (λ x. x == t) ts ≡ false → release t (t ∷ ts) ≡ ts
unfolding release
release-acquire t ts e = rw (==_refl t) (keep_others t ts e)

module _ (rd : Reading) {F : Type 0} where
  -- A run, whichever deliveries and statements fail. In every case it is not marked as running at its
  -- end, if it was not at its start. Without a tenant it is refused, and so is one that delivers while
  -- another of its tenant does. It is refused without effect; or it is a dry run, has no effect and
  -- reports the messages selected; or it reports, in their order, exactly the messages selected, has
  -- delivered, each once, those it counts as replayed and those it could not mark, has marked exactly
  -- those it counts as replayed, and lists all others with their errors.
  pub run-Ran :
      (running : List ℕ) (req : Request) (w : World F)
      → let r = run rd running req w in
        (r.0.1 ≡ running)
        × Ran rd req w r.0.0 r.1
        × (req.tenant_id ≡ 0 → r.0.0 ≡ refused invalid)
        × (req.tenant_id ≢ 0
            → req.dry_run ≡ false
            → In req.tenant_id running
            → r.0.0 ≡ refused already_running)
  unfolding run acquire run_dry run_acquired
  run-Ran running req w =
      by_tests (req.tenant_id == 0) req.dry_run (any (λ t. t == req.tenant_id) running) refl refl
        refl
    where
      by_tests :
          (b d a : Bool)
          → (req.tenant_id == 0) ≡ b
          → req.dry_run ≡ d
          → any (λ t. t == req.tenant_id) running ≡ a
          → let r =
              (if b
                  then pure (refused invalid, running)
                  else if d
                  then run_dry rd req running
                  else run_acquired rd req
                      (if a then (false, running) else (true, req.tenant_id ∷ running)))
                w in
            (r.0.1 ≡ running)
            × Ran rd req w r.0.0 r.1
            × (req.tenant_id ≡ 0 → r.0.0 ≡ refused invalid)
            × (req.tenant_id ≢ 0
                → req.dry_run ≡ false
                → In req.tenant_id running
                → r.0.0 ≡ refused already_running)
      by_tests true d a e f h =
          (refl, inl (invalid, refl, refl, refl), λ _. refl, λ n g i. absurd (n (==_eq _ 0 e)))
      by_tests false true a e f h =
          (refl, run_rows-Ran rd req w, λ z. absurd (==_ne _ 0 e z), λ n g i. cc (g, f))
      by_tests false false true e f h = (
        refl,
        inl (already_running, refl, refl, refl),
        λ z. absurd (==_ne _ 0 e z),
        λ n g i. refl,
      )
      by_tests false false false e f h = (
        release-acquire req.tenant_id running h,
        run_rows-Ran rd req w,
        λ z. absurd (==_ne _ 0 e z),
        λ n g i. absurd (In-any req.tenant_id running i h),
      )
