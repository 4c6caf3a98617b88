-- ===== src/Jobs/Drain.antt =====
-- The worker of core/app_jobs.py works off its queue.
use xyn_seed.Base.{◌+◌, ◌≤◌, Bool, true, some, ◌≡◌, nat_eq, string_eq, ◌||◌}
use xyn_seed.Desk.{Job, Desk, find_job}
use xyn_seed.Jobs.{JobEnv, is_queued, is_running, Handlers, run_handler}
use xyn_seed.Jobs.Turns.{IsKnown, rank, Descends, work, running_jobs}

-- What a turn does: the work gets less, and no more jobs are running.
pub record Worked (desk desk' : Desk) : Type 0 where
  pub known : IsKnown desk'
  pub less : work desk' + 1 ≤ work desk
  pub idle : running_jobs desk' ≡ running_jobs desk

module _ (env : JobEnv) (job : Job) (desk : Desk) (known : IsKnown desk)
    (there : find_job job.id desk ≡ some job) (runs : is_running job ≡ true) where
  abbrev Finished : Desk → Type 0
  Finished desk' =
      IsKnown desk'
      × (work desk' ≤ work desk + rank job.job_type)
      × (running_jobs desk' + 1 ≡ running_jobs desk)

-- Every handler keeps to the rules.
abbrev pub AllDescend : Handlers → Type 0
AllDescend handlers = (job : Job) (desk : Desk) → Descends job desk (run_handler handlers job desk)

abbrev pub is_open : Job → Bool
is_open row = is_queued row || is_running row
