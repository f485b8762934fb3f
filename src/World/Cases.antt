-- ===== src/World/Cases.antt =====
-- What holds after a test or a statement, from what holds after each of its outcomes.
use fieldwatchai_comms_openk.Prelude.{Bool, true, false, if◌then◌else◌}
use fieldwatchai_comms_openk.Store.{Db, Result, err, unavailable}
use fieldwatchai_comms_openk.World.{World, M, fails, answer, query, next_fault, later_faults}

module _ {F : Type 0} where
  pub if_lem :
      {A : Type 0} (b : Bool) (m n : M F A) (P : A × World F → Type 0) (w : World F)
      → P (m w)
      → P (n w)
      → P ((if b then m else n) w)
  if_lem true m n P w x y = x
  if_lem false m n P w x y = y

  -- The world after one entry of the faults.
  abbrev pub spent : World F → World F
  spent w = record w { faults = later_faults w.faults }

  -- A statement and what follows it: it has failed, or it has had its effect.
  pub query_cases :
      {A B : Type 0} (q : Db F → Result A × Db F) (k : Result A → M F B) (P : B × World F → Type 0)
      (w : World F)
      → P (k (err unavailable) (spent w))
      → P (k (q w.db).0 (record (spent w) { db = (q w.db).1 }))
      → P (k (query q w).0 (query q w).1)
  unfolding query fails
  query_cases {B} q k P w x y = by_fault (next_fault w.faults)
    where
      by_fault : (b : Bool) → P (k (answer b q (spent w)).0 (answer b q (spent w)).1)
      by_fault true = x
      by_fault false = y
