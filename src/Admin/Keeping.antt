-- ===== src/Admin/Keeping.antt =====
-- Actions that keep the tables sound, and how they compose.
use fieldwatchai_comms_openk.Prelude.{ℕ, Bool, comparable_nat}
use fieldwatchai_comms_openk.Policy.Float.{Float64}
use fieldwatchai_comms_openk.Store.{Db, Result}
use fieldwatchai_comms_openk.World.{M, ◌>>=◌, pure, query, fails, new_id}
use fieldwatchai_comms_openk.World.Triple.{
  Cond, Triple, pure-Triple, bind-Triple, query-Triple, new_id-Triple, fails-Triple,
}
use fieldwatchai_comms_openk.Admin.{Deps}
use fieldwatchai_comms_openk.Admin.Sound.{IsSound}

module _ (f : Float64) (d : Deps f) where
  abbrev pub Sound : Cond f.F
  Sound db jobs = IsSound f db

  abbrev pub Keeps : {A : Type 0} → M f.F A → Type 0
  Keeps m = Triple Sound m (λ r. Sound)

  -- A statement that keeps the tables sound, and what follows it.
  pub query-Keeps :
      {A B : Type 0} (q : Db f.F → Result A × Db f.F) (k : Result A → M f.F B)
      → ((db : Db f.F) → IsSound f db → IsSound f (q db).1)
      → ((r : Result A) → Keeps (k r))
      → Keeps (query q >>= k)
  query-Keeps q k h hk =
      bind-Triple (λ r. Sound) (query q) k (query-Triple q (λ db jobs s. s) (λ db jobs s. h db s))
        hk

  pub new_id-Keeps :
      {B : Type 0} (k : ℕ → M f.F B) → ((i : ℕ) → Keeps (k i)) → Keeps (new_id d.ids >>= k)
  new_id-Keeps k hk =
      bind-Triple (λ i. Sound) (new_id d.ids) k (new_id-Triple d.ids (λ i db jobs s. s)) hk

  pub fails-Keeps :
      {B : Type 0} (k : Bool → M f.F B) → ((b : Bool) → Keeps (k b)) → Keeps (fails >>= k)
  fails-Keeps k hk = bind-Triple (λ b. Sound) fails k (fails-Triple (λ b db jobs s. s)) hk

  pub ask-Keeps :
      {A B : Type 0} (q : Db f.F → Result A × Db f.F) (g : Result A → B)
      → ((db : Db f.F) → IsSound f db → IsSound f (q db).1)
      → Keeps (query q >>= (λ r. pure (g r)))
  ask-Keeps q g h = query-Keeps q (λ r. pure (g r)) h (λ r. pure-Triple (g r) (λ db jobs s. s))

  pub pure-Keeps : {A : Type 0} (a : A) → Keeps (pure a)
  pure-Keeps a = pure-Triple a (λ db jobs s. s)
