-- ===== src/Runtime/Soundness.antt =====
-- The invariant of the runtime's tables.
use xyn_seed.Base.Members.{Distinct}
use xyn_seed.Models.{Db}
use xyn_seed.Runtime.Rows.{run_ids}
use xyn_seed.Runtime.Assignment.{IsConsistent}

-- The two things that every operation keeps.
pub record IsSound (db : Db) : Type 0 where
  pub consistent : IsConsistent db
  pub distinct : Distinct (run_ids db)
