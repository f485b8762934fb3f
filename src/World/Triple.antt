-- ===== src/World/Triple.antt =====
-- Triples over the database and the started work: how the parts of an action compose.
use fieldwatchai_comms_openk.Prelude.{
  ℕ, Bool, true, false, List, [], ◌∷◌, ◌++◌, ◌≡◌, refl, if◌then◌else◌,
}
use fieldwatchai_comms_openk.Store.{Db, Result, err, unavailable}
use fieldwatchai_comms_openk.World.{
  Job, World, M, ◌>>=◌, ◌>>◌, pure, fails, answer, query, new_id, spawn,
}

-- A condition on the database and the started work.
abbrev pub Cond : Type 0 → Type 1
Cond F = Db F → List Job → Type 0

-- From `P`, the action `m` ends in `Q` of its result.
pub record Triple {F A : Type 0} (P : Cond F) (m : M F A) (Q : A → Cond F) : Type 0 where
  pub at : (w : World F) → P w.db w.jobs → Q (m w).0 (m w).1.db (m w).1.jobs

module _ {F : Type 0} where
  pub pure-Triple :
      {A : Type 0} {P : Cond F} {Q : A → Cond F} (a : A)
      → ((db : Db F) (jobs : List Job) → P db jobs → Q a db jobs)
      → Triple P (pure a) Q
  pure-Triple a h = record { at = λ w p. h w.db w.jobs p }

  pub bind-Triple :
      {A B : Type 0} {P : Cond F} {Q : B → Cond F} (R : A → Cond F) (m : M F A) (k : A → M F B)
      → Triple P m R
      → ((a : A) → Triple (R a) (k a) Q)
      → Triple P (m >>= k) Q
  bind-Triple R m k hm hk = record { at = λ w p. (hk (m w).0).at (m w).1 (hm.at w p) }

  pub then-Triple :
      {B : Type 0} {P : Cond F} {Q : B → Cond F} (R : Cond F) (m : M F (Unit {0})) (k : M F B)
      → Triple P m (λ _. R)
      → Triple R k Q
      → Triple P (m >> k) Q
  then-Triple R m k hm hk = record { at = λ w p. hk.at (m w).1 (hm.at w p) }

  pub if-Triple :
      {A : Type 0} {P : Cond F} {Q : A → Cond F} (b : Bool) (m n : M F A)
      → (b ≡ true → Triple P m Q)
      → (b ≡ false → Triple P n Q)
      → Triple P (if b then m else n) Q
  if-Triple true m n hm hn = hm refl
  if-Triple false m n hm hn = hn refl

  answer_lem :
      {A : Type 0} (P : Cond F) (Q : Result A → Cond F) (q : Db F → Result A × Db F)
      → ((db : Db F) (jobs : List Job) → P db jobs → Q (err unavailable) db jobs)
      → ((db : Db F) (jobs : List Job) → P db jobs → Q (q db).0 (q db).1 jobs)
      → (b : Bool) (w : World F) → P w.db w.jobs
      → Q (answer b q w).0 (answer b q w).1.db (answer b q w).1.jobs
  unfolding answer
  answer_lem P Q q fault good true w p = fault w.db w.jobs p
  answer_lem P Q q fault good false w p = good w.db w.jobs p

  pub query-Triple :
      {A : Type 0} {P : Cond F} {Q : Result A → Cond F} (q : Db F → Result A × Db F)
      → ((db : Db F) (jobs : List Job) → P db jobs → Q (err unavailable) db jobs)
      → ((db : Db F) (jobs : List Job) → P db jobs → Q (q db).0 (q db).1 jobs)
      → Triple P (query q) Q
  unfolding query
  query-Triple {P} {Q} q fault good = record {
    at = λ w p. answer_lem P Q q fault good (fails w).0 (fails w).1 p;
  }

  pub new_id-Triple :
      {P : Cond F} {Q : ℕ → Cond F} (ids : ℕ → ℕ)
      → ((i : ℕ) (db : Db F) (jobs : List Job) → P db jobs → Q i db jobs)
      → Triple P (new_id ids) Q
  unfolding new_id
  new_id-Triple ids h = record { at = λ w p. h (ids w.drawn) w.db w.jobs p }

  pub fails-Triple :
      {P : Cond F} {Q : Bool → Cond F}
      → ((b : Bool) (db : Db F) (jobs : List Job) → P db jobs → Q b db jobs)
      → Triple P fails Q
  unfolding fails
  fails-Triple h = record { at = λ w p. h _ w.db w.jobs p }

  pub spawn-Triple :
      {P : Cond F} {Q : Unit {0} → Cond F} (job : Job)
      → ((db : Db F) (jobs : List Job) → P db jobs → Q tt db (jobs ++ job ∷ []))
      → Triple P (spawn job) Q
  unfolding spawn
  spawn-Triple job h = record { at = λ w p. h w.db w.jobs p }
