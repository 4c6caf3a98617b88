-- ===== src/Runtime/Dispatch/Queue.antt =====
-- The order of the queue is total and transitive.
use xyn_seed.Base.{◌≡◌, true, false, arith}
use xyn_seed.Base.Sorted.{IsOrder}
use xyn_seed.Models.{Run}
use xyn_seed.Runtime.Dispatch.{run_precedes}

run_precedes_trans :
    (a b c : Run) → run_precedes a b ≡ true → run_precedes b c ≡ true → run_precedes a c ≡ true
unfolding run_precedes
run_precedes_trans a b c h k = ground arith

run_precedes_total : (a b : Run) → run_precedes a b ≡ false → run_precedes b a ≡ true
unfolding run_precedes
run_precedes_total a b h = ground arith

pub run_precedes-IsOrder : IsOrder run_precedes
run_precedes-IsOrder = record { trans = run_precedes_trans; total = run_precedes_total }
