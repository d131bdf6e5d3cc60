-- ===== src/Jobs/Examples.antt =====
-- Runs of the job table: a table of four jobs, two claims, a recovery pass.
use mathlib.Core.List.{Nodup, Nodup-cons, not-mem-nil}
use mathlib.Core.List.Pairwise
use lrllm.Prelude.{
  ℕ, ◌≡◌, refl, Bool, true, false, ◌==◌, ◌||◌, String, Option, none, some, List, [], ◌∷◌, map, elem,
  string_eq, not-mem_of_elem, All, sort_desc, insert_desc,
}
use lrllm.Jobs.Table.{
  JobStatus, pending, running, failed, JobRow, new_row, claim_pending, lock_due, claim, first_by,
  updated, update, requeue, where_id, list_stale_running, find_active,
}
use lrllm.Jobs.Claims.{job_ids, IsClaim, claim_pending_lem, claim_pending-disjoint}
use lrllm.Jobs.Worker.{WorkerSettings, reclaim_stale_jobs, reclaim_each, reclaim_job}
use lrllm.Jobs.Recovery.{IsRecovery, reclaim_stale_jobs_lem}
use lrllm.Jobs.Stamps.{Step, Steps, IsWellFormed, Steps-IsWellFormed}
use lrllm.Jobs.Crashes.{Crashes, Alive, Crashes-Alive}

abbrev settings : WorkerSettings
settings = record { max_attempts = 3; retry_backoff = 10; stale_timeout = 100 }

abbrev waiting : JobRow
waiting = record (new_row "b" "kb" "d2" none 20) { attempt_count = 1; next_attempt_at = some 60 }

abbrev lost : JobRow
lost = record (new_row "c" "kb" "d3" none 30) {
  status = running;
  attempt_count = 2;
  started_at = some 40;
}

abbrev spent : JobRow
spent = record (new_row "d" "kb" "d4" none 35) {
  status = running;
  attempt_count = 3;
  started_at = some 45;
}

abbrev table : List JobRow
table = waiting ∷ new_row "a" "kb" "d1" none 10 ∷ lost ∷ spent ∷ []

abbrev unlocked : String → Bool
unlocked id = false

claims_oldest : (claim_pending 1 70 unlocked table).1 ≡ "a" ∷ []
unfolding claim_pending lock_due claim first_by sort_desc insert_desc
claims_oldest = refl

waits_for_backoff : (claim_pending 5 50 unlocked table).1 ≡ "a" ∷ []
unfolding claim_pending lock_due claim first_by sort_desc insert_desc
waits_for_backoff = refl

abbrev outcome : JobRow → JobStatus × Option ℕ
outcome r = (r.status, r.next_attempt_at)

recovers_or_fails :
    map outcome (reclaim_stale_jobs settings 200 table)
    ≡ (pending, some 60) ∷ (pending, none) ∷ (pending, some 220) ∷ (failed, none) ∷ []
unfolding reclaim_stale_jobs reclaim_each reclaim_job list_stale_running first_by sort_desc
    insert_desc requeue update where_id updated
recovers_or_fails = refl

finds_active : find_active "d3" table ≡ some lost
unfolding find_active sort_desc insert_desc
finds_active = refl

distinct_ids : Nodup (job_ids table)
distinct_ids = Nodup-cons.1 (
  not-mem_of_elem _ _ refl,
  Nodup-cons.1 (
    not-mem_of_elem _ _ refl,
    Nodup-cons.1 (not-mem_of_elem _ _ refl, Nodup-cons.1 (not-mem-nil, Pairwise.nil)),
  ),
)

claim_pending_lem_example :
    IsClaim 70 unlocked 1 table
      (claim_pending 1 70 unlocked table).0
      (claim_pending 1 70 unlocked table).1
claim_pending_lem_example = claim_pending_lem 70 unlocked 1 table distinct_ids

claim_pending-disjoint_example :
    let first = claim_pending 1 70 unlocked table in
    let due = lock_due 1 70 unlocked table in
    All (λ id. elem id first.1 ≡ false) (claim_pending 2 80 unlocked first.0).1
    × All (λ id. elem id due ≡ false) (lock_due 2 80 (λ id. false || elem id due) table)
claim_pending-disjoint_example = claim_pending-disjoint 1 2 70 80 unlocked unlocked table

reclaim_stale_jobs_lem_example :
    IsRecovery settings 200 table (reclaim_stale_jobs settings 200 table)
reclaim_stale_jobs_lem_example = reclaim_stale_jobs_lem settings 200 table distinct_ids

abbrev one_claimed : List JobRow
one_claimed = (claim_pending 1 70 unlocked table).0

well_formed : IsWellFormed table
well_formed = record { distinct = distinct_ids; stamps = (refl, (refl, (refl, (refl, tt)))) }

Steps-IsWellFormed_example : IsWellFormed (reclaim_stale_jobs settings 200 one_claimed)
Steps-IsWellFormed_example =
    Steps-IsWellFormed settings table (reclaim_stale_jobs settings 200 one_claimed)
      (Steps.step _ _ _ (Step.claims 1 70 unlocked table)
        (Steps.step _ _ _ (Step.recovers 200 one_claimed) (Steps.stop _)))
      well_formed

other_id : (a b : String) → (a == b) ≡ false → a ≡ b → ⊥
other_id a b h e = let same : (a == b) ≡ true = (string_eq.same_iff a b).1 e in cc

-- The job of `lost` among one that waits and one that is out of attempts.
Crashes-Alive_example : Alive settings "c" 2 (
    reclaim_stale_jobs settings 900 (
      reclaim_stale_jobs settings 400
        (claim_pending 2 300 unlocked (waiting ∷ lost ∷ spent ∷ [])).0))
Crashes-Alive_example =
    Crashes-Alive settings "c" 2 (waiting ∷ lost ∷ spent ∷ []) _
      (Crashes.claims 2 300 unlocked _ _
        (Crashes.recovers 400 _ _ (Crashes.recovers 900 _ _ (Crashes.stop _))))
      refl
      (
        refl,
        (
          (λ e. absurd (other_id "b" "c" refl e)),
          ((λ e. (refl, refl)), ((λ e. absurd (other_id "d" "c" refl e)), tt)),
        ),
      )
