-- ===== src/Workflow/Retries.antt =====
-- Delivery with retries.
use fieldwatchai_comms_openk.Prelude.{
  ℕ, zero, suc, ◌+◌, ◌≤◌, ◌<◌, max, ◌≡◌, ◌⊎◌, inl, inr, refl, sym, ap, subst, true, false, ◌&&◌,
}
use fieldwatchai_comms_openk.Prelude.{arith, if◌then◌else◌, Bool-cases, ltb}
use fieldwatchai_comms_openk.Workflow.{
  Reply, unbuildable, transport_failure, status, Round, Delivery, delivered, rejected, aborted,
  exhausted,
}
use fieldwatchai_comms_openk.Workflow.{is_success, is_rejection, conclude, attempt, forward}

-- A reply after which the loop goes on: no answer, or a status that is neither success nor rejection.
abbrev pub IsTransient : Reply → Type 0
IsTransient unbuildable = ⊥
IsTransient transport_failure = Unit
IsTransient (status code) = (is_success code ≡ false) × (is_rejection code ≡ false)

abbrev allowed : ℕ → ℕ
allowed attempts = if ltb attempts 1 then 1 else attempts

allowed-eq : (attempts : ℕ) → allowed attempts ≡ max 1 attempts
allowed-eq attempts = ground arith

module _ (rounds : ℕ → Round) where
  -- The context ends in the backoff of a round, or its request cannot be built.
  abbrev pub HasStopped : ℕ → Type 0
  HasStopped j = ((0 < j) × ((rounds j).cancelled ≡ true)) ⊎ ((rounds j).reply ≡ unbuildable)

  -- How a run from round `i` ends that sent `n` requests, in at most `left` rounds.
  pub data Ends (left i n : ℕ) (d : Delivery) : Type 0 where
    accepted :
        (m code : ℕ)
        → n ≡ suc m
        → n ≤ left
        → (rounds (i + m)).reply ≡ status code
        → is_success code ≡ true
        → d ≡ delivered
        → Ends left i n d
    refused :
        (m code : ℕ)
        → n ≡ suc m
        → n ≤ left
        → (rounds (i + m)).reply ≡ status code
        → is_rejection code ≡ true
        → d ≡ rejected code
        → Ends left i n d
    stopped : n < left → HasStopped (i + n) → d ≡ aborted → Ends left i n d
    used_up :
        n ≡ left
        → ((j : ℕ) → j < n → IsTransient (rounds (i + j)).reply)
        → d ≡ exhausted
        → Ends left i n d

  go_on :
      {left i n : ℕ} {d : Delivery}
      → IsTransient (rounds i).reply
      → Ends left (suc i) n d
      → Ends (suc left) i (suc n) d
  go_on {i} t (accepted m code e l r s k) =
      accepted (suc m) code (ap suc e) (omega arith)
        (subst (λ j. (rounds j).reply ≡ status code) (omega arith) r) s k
  go_on {i} t (refused m code e l r s k) =
      refused (suc m) code (ap suc e) (omega arith)
        (subst (λ j. (rounds j).reply ≡ status code) (omega arith) r) s k
  go_on t (stopped l h k) = stopped (omega arith) (subst HasStopped (omega arith) h) k
  go_on {i} {n} t (used_up e h k) = used_up (ap suc e) all_transient k
    where
      all_transient : (j : ℕ) → j < suc n → IsTransient (rounds (i + j)).reply
      all_transient zero l = subst (λ k. IsTransient (rounds k).reply) (omega arith) t
      all_transient (suc j) l =
          subst (λ k. IsTransient (rounds k).reply) (omega arith) (h j (omega (arith, l)))

  conclude-Ends :
      (left i : ℕ) (r : Reply) (more : Delivery × ℕ)
      → (rounds i).reply ≡ r
      → Ends left (suc i) more.1 more.0
      → Ends (suc left) i (conclude r more).1 (conclude r more).0
  unfolding conclude
  conclude-Ends left i unbuildable more e h =
      stopped (omega arith) (inr (subst (λ j. (rounds j).reply ≡ unbuildable) (omega arith) e)) refl
  conclude-Ends left i transport_failure more e h = go_on (subst IsTransient (sym e) tt) h
  conclude-Ends left i (status code) more e h =
      let here : (rounds (i + 0)).reply ≡ status code =
        subst (λ j. (rounds j).reply ≡ status code) (omega arith) e in
      elim (Bool-cases (is_success code)) [
        | inl s ↦ rw s (accepted 0 code refl (omega arith) here s refl)
        | inr s ↦ elim (Bool-cases (is_rejection code)) [
          | inl t ↦ rw (s, t) (refused 0 code refl (omega arith) here t refl)
          | inr t ↦ rw (s, t) (go_on (subst IsTransient (sym e) (s, t)) h)
        ]
      ]

  cancelled_lem :
      (i : ℕ)
      → (ltb 0 i && (rounds i).cancelled) ≡ true
      → (0 < i + 0) × ((rounds (i + 0)).cancelled ≡ true)
  cancelled_lem i c =
      let same : i ≡ i + 0 = omega arith in
      let first : 0 < i = ground (arith, c) in
      let second : (rounds i).cancelled ≡ true = ground (arith, c) in
      subst (λ j. (0 < j) × ((rounds j).cancelled ≡ true)) same (first, second)

  attempt-Ends : (left i : ℕ) → Ends left i (attempt left i rounds).1 (attempt left i rounds).0
  unfolding attempt
  attempt-Ends zero i = used_up refl (λ j l. absurd (omega (arith, l))) refl
  attempt-Ends (suc left) i = elim (Bool-cases (ltb 0 i && (rounds i).cancelled)) [
    | inl c ↦ rw c (stopped (omega arith) (inl (cancelled_lem i c)) refl)
    | inr c ↦ rw c (
        conclude-Ends left i (rounds i).reply (attempt left (suc i) rounds) refl
          (attempt-Ends left (suc i)))
  ]

  -- `Forward` makes at most as many requests as it has attempts, and one at least is allowed. It
  -- ends in one of four ways: its last request was answered with 2xx, and it reports success; its
  -- last request was answered with 4xx other than 401, 403, 408 and 429, and it reports that
  -- permanent rejection; the context ended in the backoff before the next request, or that request
  -- could not be built, and it reports that; or every attempt was used, each request met a transport
  -- failure or an answer that is neither of these, and it reports the last error.
  pub forward-Ends :
      (attempts : ℕ)
      → Ends (max 1 attempts) 0 (forward attempts rounds).1 (forward attempts rounds).0
  unfolding forward
  forward-Ends attempts =
      subst
        (λ n.
          Ends n 0 (attempt (allowed attempts) 0 rounds).1 (attempt (allowed attempts) 0 rounds).0)
        (allowed-eq attempts) (attempt-Ends (allowed attempts) 0)

  conclude-IsTransient :
      (r : Reply) (more : Delivery × ℕ) (j : ℕ)
      → suc j < (conclude r more).1
      → IsTransient r × (j < more.1)
  unfolding conclude
  conclude-IsTransient unbuildable more j h = absurd (omega arith)
  conclude-IsTransient transport_failure more j h = (tt, omega arith)
  conclude-IsTransient (status code) more j h = ((ground arith, ground arith), ground arith)

  Ends-le : {left i n : ℕ} {d : Delivery} → Ends left i n d → n ≤ left
  Ends-le (accepted m code e l r s k) = l
  Ends-le (refused m code e l r s k) = l
  Ends-le (stopped l h k) = omega arith
  Ends-le (used_up e h k) = omega arith

  attempt-bound : (left i : ℕ) → (attempt left i rounds).1 ≤ left
  attempt-bound left i = Ends-le (attempt-Ends left i)

  attempt-step :
      (left i : ℕ)
      → (attempt (suc left) i rounds ≡ (aborted, 0))
        ⊎ (attempt (suc left) i rounds ≡ conclude (rounds i).reply (attempt left (suc i) rounds))
  unfolding attempt
  attempt-step left i = elim (Bool-cases (ltb 0 i && (rounds i).cancelled)) [
    | inl c ↦ inl (rw c)
    | inr c ↦ inr (rw c)
  ]

  attempt-IsTransient :
      (left i j : ℕ) → suc j < (attempt left i rounds).1 → IsTransient (rounds (i + j)).reply
  attempt-IsTransient zero i j h = absurd (omega (arith, attempt-bound zero i))
  attempt-IsTransient (suc left) i j h = elim (attempt-step left i) [
    | inl e ↦ absurd (omega (arith, ap (λ x. x.1) e))
    | inr e ↦
        later left i j
          (conclude-IsTransient (rounds i).reply (attempt left (suc i) rounds) j
            (omega (arith, ap (λ x. x.1) e)))
          (λ k p. attempt-IsTransient left (suc i) k p)
  ]
    where
      later :
          (left i j : ℕ)
          → IsTransient (rounds i).reply × (j < (attempt left (suc i) rounds).1)
          → ((k : ℕ)
              → suc k < (attempt left (suc i) rounds).1
              → IsTransient (rounds (suc i + k)).reply)
          → IsTransient (rounds (i + j)).reply
      later left i zero (t, _) f = subst (λ k. IsTransient (rounds k).reply) (omega arith) t
      later left i (suc j) (_, p) f =
          subst (λ k. IsTransient (rounds k).reply) (omega arith) (f j p)

  -- Every request of `Forward` but the last met a transient failure: no request follows a success
  -- or a permanent rejection.
  pub forward-IsTransient :
      (attempts j : ℕ) → suc j < (forward attempts rounds).1 → IsTransient (rounds j).reply
  unfolding forward
  forward-IsTransient attempts j h =
      subst (λ k. IsTransient (rounds k).reply) (omega arith)
        (attempt-IsTransient (allowed attempts) 0 j h)
