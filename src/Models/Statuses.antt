-- ===== src/Models/Statuses.antt =====
-- The status enumerations of core/models.py, compared by their places in the declaration.
use xyn_seed.Base.{ℕ, Comparable, nat_beq, ◌≡◌, ◌↔◌, true, arith}

pub data RunStatus : Type 0 where
  queued created running completed failed blocked cancelled : RunStatus

pub data StepStatus : Type 0 where
  queued created running completed failed skipped : StepStatus

pub data RuntimeWorkerStatus : Type 0 where
  idle busy offline : RuntimeWorkerStatus

abbrev pub run_status_place : RunStatus → ℕ
run_status_place RunStatus.queued = 0
run_status_place RunStatus.created = 1
run_status_place RunStatus.running = 2
run_status_place RunStatus.completed = 3
run_status_place RunStatus.failed = 4
run_status_place RunStatus.blocked = 5
run_status_place RunStatus.cancelled = 6

abbrev pub step_status_place : StepStatus → ℕ
step_status_place StepStatus.queued = 0
step_status_place StepStatus.created = 1
step_status_place StepStatus.running = 2
step_status_place StepStatus.completed = 3
step_status_place StepStatus.failed = 4
step_status_place StepStatus.skipped = 5

abbrev pub worker_status_place : RuntimeWorkerStatus → ℕ
worker_status_place idle = 0
worker_status_place busy = 1
worker_status_place offline = 2

pub run_status_beq_iff :
    (a b : RunStatus) → (nat_beq (run_status_place a) (run_status_place b) ≡ true) ↔ (a ≡ b)
run_status_beq_iff a b = ground arith

pub step_status_beq_iff :
    (a b : StepStatus) → (nat_beq (step_status_place a) (step_status_place b) ≡ true) ↔ (a ≡ b)
step_status_beq_iff a b = ground arith

pub worker_status_beq_iff :
    (a b : RuntimeWorkerStatus)
    → (nat_beq (worker_status_place a) (worker_status_place b) ≡ true) ↔ (a ≡ b)
worker_status_beq_iff a b = ground arith

instance abbrev pub run_status_eq : Comparable RunStatus
run_status_eq = record {
  same = λ a b. nat_beq (run_status_place a) (run_status_place b);
  same_iff = run_status_beq_iff;
}

instance abbrev pub step_status_eq : Comparable StepStatus
step_status_eq = record {
  same = λ a b. nat_beq (step_status_place a) (step_status_place b);
  same_iff = step_status_beq_iff;
}

instance abbrev pub worker_status_eq : Comparable RuntimeWorkerStatus
worker_status_eq = record {
  same = λ a b. nat_beq (worker_status_place a) (worker_status_place b);
  same_iff = worker_status_beq_iff;
}
