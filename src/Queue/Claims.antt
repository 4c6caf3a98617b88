-- ===== src/Queue/Claims.antt =====
-- Which run `claim_run` takes.
use mathlib.Core.List.{head?}
use xyn_seed.Base.{
  ℕ, suc, zero, Bool, true, false, not, Option, none, some, List, [], ◌∷◌, ◌≡◌, ◌≢◌, refl, arith,
  All, select, map, ◌&&◌, nat_eq, nat_beq_iff, ◌∙◌,
}
use xyn_seed.Base.Members.{
  Distinct, All-select, All-sort, All-both, All-select_self, All-of_sort, All-of_select, lookup-All,
}
use xyn_seed.Base.Sort.{sort}
use xyn_seed.Base.Sorted.{IsOrder, Sorted, sort-Sorted}
use xyn_seed.Models.{Run, run_status_eq, Db}
use xyn_seed.Runtime.Session.{find_run, put_run, run_key}
use xyn_seed.Runtime.Rows.{find_run-put_run}
use xyn_seed.Base.Order.{
  Chains, then_by-Chains, compare_numbers-Chains, compare_nulls_last-Chains, not_after-Chains,
}
use xyn_seed.Queue.{
  claim_order, reclaim_rank, Worker, is_claimable, claim_precedes, limit, candidates, claimed,
  claim_all, claim_run,
}

claim_order-Chains : (a b c : Run) → Chains (claim_order a b) (claim_order b c) (claim_order a c)
claim_order-Chains a b c =
    then_by-Chains _ _ _ _ _ _ (compare_numbers-Chains a.priority b.priority c.priority) (
      then_by-Chains _ _ _ _ _ _
        (compare_numbers-Chains (reclaim_rank a) (reclaim_rank b) (reclaim_rank c))
        (then_by-Chains _ _ _ _ _ _ (compare_nulls_last-Chains a.run_at b.run_at c.run_at) (
          then_by-Chains _ _ _ _ _ _ (compare_nulls_last-Chains a.queued_at b.queued_at c.queued_at)
            (compare_numbers-Chains a.created_at b.created_at c.created_at))))

claim_precedes_trans :
    (a b c : Run)
    → claim_precedes a b ≡ true
    → claim_precedes b c ≡ true
    → claim_precedes a c ≡ true
unfolding claim_precedes
claim_precedes_trans a b c h k =
    not_after-Chains (claim_order a b) (claim_order b c) (claim_order a c)
      (claim_order-Chains a b c) h k

claim_precedes_total : (a b : Run) → claim_precedes a b ≡ false → claim_precedes b a ≡ true
unfolding claim_precedes
claim_precedes_total a b h = ground arith

claim_precedes-IsOrder : IsOrder claim_precedes
claim_precedes-IsOrder = record { trans = claim_precedes_trans; total = claim_precedes_total }

module _ (P : Run → Type 0) where
  All-limit : (n : ℕ) (qs : List Run) → All P qs → All P (limit n qs)
  All-limit zero qs h = tt
  All-limit (suc n) [] h = tt
  All-limit (suc n) (q ∷ qs) h = (h.0, All-limit n qs h.1)

abbrev pub is_free : (Run → Bool) → ℕ → Run → Bool
is_free is_locked now run = is_claimable now run && not (is_locked run)

module _ (is_locked : Run → Bool) (now : ℕ) (db : Db) where
  -- The candidates are rows of the table that are free to claim.
  pub candidates_free :
      (n : ℕ)
      → Distinct (map run_key db.runs)
      → All
          (λ q. (find_run q.id db ≡ some q) × (is_free is_locked now q ≡ true))
          (candidates is_locked now n db)
  unfolding candidates find_run
  candidates_free n d =
      let free = is_free is_locked now in
      All-limit _ n (sort claim_precedes (select free db.runs)) (
        All-sort _ claim_precedes (select free db.runs) (
          All-both _ _ (select free db.runs)
            (All-select _ free db.runs (lookup-All run_key db.runs d))
            (All-select_self free db.runs)))

-- What a claim leaves of a run that no candidate is.
pub find_run-claim_all :
    (now : ℕ) (w : Worker) (r : ℕ) (qs : List Run) (db : Db)
    → All (λ q. q.id ≢ r) qs
    → find_run r (claim_all now w qs db) ≡ find_run r db
unfolding claim_all claimed
find_run-claim_all now w r [] db h = refl
find_run-claim_all now w r (q ∷ qs) db h =
    find_run-claim_all now w r qs (put_run (claimed now w q) db) h.1
    ∙ ground (arith, find_run-put_run (claimed now w q) r db, nat_beq_iff q.id r, h.0)

module _ (is_locked : Run → Bool) (now : ℕ) (w : Worker) (db : Db) where
  -- The one claim of a batch of one.
  abbrev pub ClaimsFirst : Run → Db → Type 0
  ClaimsFirst q' db' =
      (q : Run) × (find_run q.id db ≡ some q)
      × (is_free is_locked now q ≡ true)
      × (q' ≡ claimed now w q)
      × (db' ≡ put_run (claimed now w q) db)
      × All (λ p. is_free is_locked now p ≡ true → claim_precedes q p ≡ true) db.runs

  taken : List Run → Option Run × Db
  taken runs = elim (head? runs) [
    | none ↦ (none, claim_all now w runs db)
    | some run ↦ (find_run run.id (claim_all now w runs db), claim_all now w runs db)
  ]

  first_claim :
      (waiting : List Run) (q' : Run) (db' : Db)
      → Sorted claim_precedes waiting
      → All (λ q. find_run q.id db ≡ some q) waiting
      → All (λ q. is_free is_locked now q ≡ true) waiting
      → taken (limit 1 waiting) ≡ (some q', db')
      → (q : Run) × (find_run q.id db ≡ some q)
        × (is_free is_locked now q ≡ true)
        × (q' ≡ claimed now w q)
        × (db' ≡ put_run (claimed now w q) db)
        × All (λ p. claim_precedes q p ≡ true) waiting
  unfolding claim_all claimed taken
  first_claim [] q' db' s f free h = absurd (ground arith)
  first_claim (q ∷ qs) q' db' s f free h = (
    q,
    f.0,
    free.0,
    ground (arith, find_run-put_run (claimed now w q) q.id db, nat_beq_iff q.id q.id, f.0),
    ground arith,
    (unfold claim_precedes in ground arith, s.0),
  )

  -- With a batch of one, a claim takes a run that waits and is due, or that has an expired lease
  -- to be reclaimed, that no other transaction has locked, and that comes first of all such runs
  -- in the order of the claim; it is the only run that is changed. The ids of the runs are taken
  -- to be distinct.
  pub claim_run-ClaimsFirst :
      (q' : Run) (db' : Db)
      → w.batch_size ≡ 1
      → Distinct (map run_key db.runs)
      → claim_run is_locked now w db ≡ (some q', db')
      → ClaimsFirst q' db'
  unfolding claim_run candidates find_run taken claim_all claimed
  claim_run-ClaimsFirst q' db' one d h =
      let free = is_free is_locked now in
      let waiting = sort claim_precedes (select free db.runs) in
      let (q, f, t, row, session, first) =
        first_claim waiting q' db' (sort-Sorted claim_precedes-IsOrder (select free db.runs))
          (All-sort _ claim_precedes (select free db.runs)
            (All-select _ free db.runs (lookup-All run_key db.runs d)))
          (All-sort _ claim_precedes (select free db.runs) (All-select_self free db.runs))
          (rw one at h) in
      (
        q,
        f,
        t,
        row,
        session,
        All-of_select _ free db.runs (All-of_sort _ claim_precedes (select free db.runs) first),
      )
