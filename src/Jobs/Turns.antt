-- ===== src/Jobs/Turns.antt =====
-- One turn of the worker of core/app_jobs.py: what it does to the table of jobs.
use xyn_seed.Base.{
  ℕ, suc, ◌+◌, ◌≤◌, ◌<◌, String, Bool, true, none, some, List, [], ◌∷◌, ◌++◌, ◌≡◌, ◌≢◌, refl, arith,
  ◌==◌, nat_eq, string_eq, if◌then◌else◌, All, select, map,
}
use mathlib.Core.List.{head?}
use xyn_seed.Base.Members.{
  Distinct, All-select, All-select_self, All-sort, All-both, All-map, lookup-All, Distinct-append,
  lookup-append,
}
use xyn_seed.Base.Sort.{sort, insert}
use xyn_seed.Base.Table.{lookup, keys-save, lookup-save, replace}
use xyn_seed.Base.Totals.{total, total-append}
use xyn_seed.Base.Text.{strip}
use xyn_seed.Desk.{Job, Desk, job_key, find_job, put_job}
use xyn_seed.Jobs.{
  JobEnv, is_queued, is_running, oldest_queued, FollowUp, follow_up_job, enqueue_job, JobOutcome,
  returned, raised, job_precedes,
}

-- The ids of the jobs are distinct, and older than the next one.
abbrev pub IsKnown : Desk → Type 0
IsKnown desk =
    Distinct (map job_key desk.jobs) × All (λ k. k < desk.next_uuid) (map job_key desk.jobs)

-- How many jobs may come of one: a kind of job has follow-ups of the kind after it.
abbrev pub rank : String → ℕ
rank job_type =
    if job_type == "generate_app_spec"
    then 3
    else if job_type == "deploy_app_local"
    then 2
    else if job_type == "provision_sibling_xyn"
    then 1
    else 0

abbrev pub rank_of_items : List FollowUp → ℕ
rank_of_items = total (λ (i : FollowUp). suc (rank (strip i.job_type)))

-- A handler adds no job by itself, and its follow-ups are of later kinds.
abbrev pub Descends : Job → Desk → JobOutcome → Type 0
Descends job desk (returned output items desk') =
    (desk'.jobs ≡ desk.jobs)
    × (desk.next_uuid ≤ desk'.next_uuid)
    × (rank_of_items items ≤ rank job.job_type)
Descends job desk (raised message desk') =
    (desk'.jobs ≡ desk.jobs) × (desk.next_uuid ≤ desk'.next_uuid)

abbrev pub weight : Job → ℕ
weight row = if is_queued row then suc (rank row.job_type) else 0

abbrev pub running_count : Job → ℕ
running_count row = if is_running row then 1 else 0

-- How many turns the queued jobs may take.
abbrev pub work : Desk → ℕ
work desk = total weight desk.jobs

abbrev pub running_jobs : Desk → ℕ
running_jobs desk = total running_count desk.jobs

-- The oldest queued job is a row of the table, and is queued.
pub oldest_queued-find :
    (desk : Desk) (row : Job)
    → IsKnown desk
    → oldest_queued desk ≡ some row
    → (find_job row.id desk ≡ some row) × (is_queued row ≡ true)
unfolding oldest_queued find_job
oldest_queued-find desk row known h =
    first_of (sort job_precedes (select is_queued desk.jobs)) sorted h
  where
    Good : Job → Type 0
    Good j = (lookup job_key (job_key j) desk.jobs ≡ some j) × (is_queued j ≡ true)

    sorted : All Good (sort job_precedes (select is_queued desk.jobs))
    sorted = All-sort Good job_precedes (select is_queued desk.jobs) (
        All-both _ _ (select is_queued desk.jobs)
          (All-select _ is_queued desk.jobs (lookup-All job_key desk.jobs known.0))
          (All-select_self is_queued desk.jobs))

    first_of : (xs : List Job) → All Good xs → head? xs ≡ some row → Good row
    first_of [] a e = absurd (ground arith)
    first_of (x ∷ xs) a e = ground (arith, a.0)

head?-sort-none : (le : Job → Job → Bool) (xs : List Job) → head? (sort le xs) ≡ none → xs ≡ []
unfolding sort insert
head?-sort-none le [] h = refl
head?-sort-none le (x ∷ xs) h = absurd (insert_some (sort le xs) h)
  where
    insert_some : (ys : List Job) → head? (insert le x ys) ≢ none
    insert_some [] e = ground arith
    insert_some (y ∷ ys) e = ground arith

no_queued_work : (xs : List Job) → select is_queued xs ≡ [] → total weight xs ≡ 0
no_queued_work [] h = refl
no_queued_work (x ∷ xs) h = ground (arith, no_queued_work xs)

-- The worker finds no job only when none is queued.
pub oldest_queued-none : (desk : Desk) → oldest_queued desk ≡ none → work desk ≡ 0
unfolding oldest_queued
oldest_queued-none desk h =
    no_queued_work desk.jobs (head?-sort-none job_precedes (select is_queued desk.jobs) h)

pub keys-IsKnown :
    (desk desk' : Desk)
    → map job_key desk'.jobs ≡ map job_key desk.jobs
    → desk.next_uuid ≤ desk'.next_uuid
    → IsKnown desk
    → IsKnown desk'
keys-IsKnown desk desk' same later known =
    rw same
      (known.0, All-map (λ k (h : k < desk.next_uuid). omega arith) (map job_key desk.jobs) known.1)

pub put_job-IsKnown : (row : Job) (desk : Desk) → IsKnown desk → IsKnown (put_job row desk)
unfolding put_job
put_job-IsKnown row desk known =
    keys-IsKnown desk (put_job row desk) (keys-save job_key row desk.jobs) (omega arith) known

pub find_job-put_job :
    (row : Job) (id : ℕ) (desk : Desk)
    → find_job id (put_job row desk)
      ≡ (if row.id == id then replace row (find_job id desk) else find_job id desk)
unfolding find_job put_job
find_job-put_job row id desk = lookup-save job_key row id desk.jobs

-- A job that is known is not new.
absent_job :
    (id : ℕ) (jobs : List Job)
    → All (λ k. k < id) (map job_key jobs)
    → lookup job_key id jobs ≡ none
unfolding lookup
absent_job id [] h = refl
absent_job id (j ∷ jobs) h = ground (arith, absent_job id jobs h.1)

-- The follow-ups are added as queued jobs under new ids.
pub record Added (desk desk' : Desk) (n : ℕ) : Type 0 where
  pub known : IsKnown desk'
  pub worked : work desk' ≡ work desk + n
  pub ran : running_jobs desk' ≡ running_jobs desk
  pub found : (id : ℕ) (j : Job) → find_job id desk ≡ some j → find_job id desk' ≡ some j

All-append_one :
    (n : ℕ) (xs : List Job) (y : Job)
    → All (λ k. k < n) (map job_key xs)
    → y.id ≡ n
    → All (λ k. k < suc n) (map job_key (xs ++ y ∷ []))
All-append_one n [] y h e = (omega arith, tt)
All-append_one n (x ∷ xs) y h e = (omega (arith, h.0), All-append_one n xs y h.1 e)

pub enqueue_job-Added :
    (env : JobEnv) (workspace_id : ℕ) (item : FollowUp) (desk : Desk)
    → IsKnown desk
    → Added desk (enqueue_job env workspace_id item desk).1 (suc (rank (strip item.job_type)))
unfolding enqueue_job find_job
enqueue_job-Added env workspace_id item desk known =
    let row = follow_up_job env workspace_id item desk.next_uuid in
    record {
      known = (
        Distinct-append job_key desk.jobs row known.0 (absent_job desk.next_uuid desk.jobs known.1),
        All-append_one desk.next_uuid desk.jobs row known.1 refl,
      );
      worked = omega (arith, total-append weight desk.jobs (row ∷ []));
      ran = omega (arith, total-append running_count desk.jobs (row ∷ []));
      found = λ id j h. ground (arith, lookup-append job_key id desk.jobs (row ∷ []));
    }
