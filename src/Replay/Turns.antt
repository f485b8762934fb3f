-- ===== src/Replay/Turns.antt =====
-- `acquire` and `release` of replay.go, called by runs that overlap.
use fieldwatchai_comms_openk.Prelude.{
  ℕ, ◌+◌, ◌≤◌, ◌≡◌, refl, sym, ◌∙◌, ap, Bool, true, false, not, List, [], ◌∷◌, ◌++◌, arith, keep,
  any, ◌==◌, ==_eq, comparable_nat, if◌then◌else◌, Bool-cases, inl, inr,
}
use fieldwatchai_comms_openk.Replay.{acquire, release}

-- The guard, and the tenants of the runs that deliver.
pub record Turns : Type 0 where
  pub running : List ℕ
  pub at_work : List ℕ

-- A run that gets the guard begins, and one at work ends; each call holds the mutex.
pub data Step : Turns → Turns → Type 0 where
  enter :
      {s : Turns} (t : ℕ) (running : List ℕ)
      → acquire t s.running ≡ (true, running)
      → Step s (record { running = running; at_work = t ∷ s.at_work })
  leave :
      {s : Turns} (xs : List ℕ) (t : ℕ) (ys : List ℕ)
      → s.at_work ≡ xs ++ t ∷ ys
      → Step s (record { running = release t s.running; at_work = xs ++ ys })

pub data Run : Turns → Turns → Type 0 where
  ended : {s : Turns} → Run s s
  next : {s u v : Turns} → Step s u → Run u v → Run s v

abbrev pub count : ℕ → List ℕ → ℕ
count t [] = 0
count t (x ∷ xs) = (if x == t then 1 else 0) + count t xs

-- The guard holds exactly the tenants at work, each once.
record Exclusive (s : Turns) : Type 0 where
  same : (t : ℕ) → count t s.at_work ≡ count t s.running
  once : (t : ℕ) → count t s.running ≤ 1

count-append : (t : ℕ) (xs ys : List ℕ) → count t (xs ++ ys) ≡ count t xs + count t ys
count-append t [] ys = omega arith
count-append t (x ∷ xs) ys = omega (arith, count-append t xs ys)

count-keep :
    (t u : ℕ) (xs : List ℕ)
    → count u (keep (λ x. not (x == t)) xs) ≡ (if t == u then 0 else count u xs)
count-keep t u [] = ground arith
count-keep t u (x ∷ xs) = kept (x == t) (x == u) (t == u) refl refl refl (count-keep t u xs)
  where
    kept :
        (b c d : Bool)
        → (x == t) ≡ b
        → (x == u) ≡ c
        → (t == u) ≡ d
        → count u (keep (λ x. not (x == t)) xs) ≡ (if d then 0 else count u xs)
        → count u (if not b then x ∷ keep (λ x. not (x == t)) xs else keep (λ x. not (x == t)) xs)
          ≡ (if d then 0 else (if c then 1 else 0) + count u xs)
    kept true c true e f g h = h
    kept true c false e f g h = ground (arith, e, f, g, h)
    kept false c true e f g h = ground (arith, e, f, g, h)
    kept false c false e f g h = ground (arith, e, f, g, h)

count-any : (t : ℕ) (xs : List ℕ) → any (λ x. x == t) xs ≡ false → count t xs ≡ 0
count-any t [] e = refl
count-any t (x ∷ xs) e = ground (arith, e, count-any t xs (ground (arith, e)))

acquired :
    (t : ℕ) (xs running : List ℕ)
    → acquire t xs ≡ (true, running)
    → (running ≡ t ∷ xs) × (count t xs ≡ 0)
unfolding acquire
acquired t xs running e = elim (Bool-cases (any (λ x. x == t) xs)) [
  | inl h ↦ absurd (ground (arith, e, h))
  | inr h ↦ (ground (arith, e, h), count-any t xs h)
]

Step-Exclusive : {s u : Turns} → Step s u → Exclusive s → Exclusive u
unfolding release
Step-Exclusive {s} (enter t running e) h =
    let r = acquired t s.running running e in
    record {
      same = λ u. rw r.0 (ap (λ n. (if t == u then 1 else 0) + n) (h.same u));
      once = λ u. rw r.0 (elim (Bool-cases (t == u)) [
        | inl q ↦
            let none_left = ap (λ v. count v s.running) (sym (==_eq t u q)) ∙ r.1 in
            rw q (omega (arith, none_left))
        | inr q ↦ rw q (omega (arith, h.once u))
      ]);
    }
Step-Exclusive {s} (leave xs t ys e) h = record {
  same = λ u. left u ∙ sym (count-keep t u s.running);
  once = λ u. ground (arith, count-keep t u s.running, h.once u);
}
  where
    left : (u : ℕ) → count u (xs ++ ys) ≡ (if t == u then 0 else count u s.running)
    left u =
        let split = ap (count u) e ∙ count-append u xs (t ∷ ys) in
        let joined = count-append u xs ys in
        elim (Bool-cases (t == u)) [
          | inl q ↦ ground (arith, q, split, joined, h.same u, h.once u)
          | inr q ↦ ground (arith, q, split, joined, h.same u, h.once u)
        ]

Run-Exclusive : (s u : Turns) → Run s u → Exclusive s → Exclusive u
Run-Exclusive s u ended h = h
Run-Exclusive s u (next {u = v} step r) h = Run-Exclusive v u r (Step-Exclusive step h)

abbrev pub start : Turns
start = record { running = []; at_work = [] }

-- Of the runs that overlap, each having called `acquire` before it delivers and calling `release` when
-- it ends, no two of one tenant deliver at the same time.
pub runs-Exclusive : (s : Turns) → Run start s → (t : ℕ) → count t s.at_work ≤ 1
runs-Exclusive s r t =
    let h = Run-Exclusive start s r (record { same = λ u. refl; once = λ u. omega arith }) in
    omega (arith, h.same t, h.once t)
