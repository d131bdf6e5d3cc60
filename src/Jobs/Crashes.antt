-- ===== src/Jobs/Crashes.antt =====
-- A worker that dies between its claim and the first stage of the pipeline, over and over.
use lrllm.Prelude.{
  ℕ, ◌≡◌, refl, sym, ◌∙◌, ap₂, Bool, true, false, ◌||◌, String, List, [], ◌∷◌, map, elem, ◌==◌,
  string_eq, All, All-query, ltb, if◌then◌else◌, if_both, Bool-cases, inl, inr,
}
use lrllm.Jobs.Table.{
  failed, is_running, is_pending, JobRow, requeued, requeue, where_id, claimed, claim, update,
  updated, claim_pending, lock_due, list_stale_running, first_by,
}
use lrllm.Jobs.Worker.{
  WorkerSettings, timeout_change, retry_at, reclaim_job, reclaim_each, reclaim_stale_jobs,
}

-- The worker's own steps only: a claim, and a recovery pass.
pub data Crashes (settings : WorkerSettings) : List JobRow → List JobRow → Type 0 where
  stop : (rows : List JobRow) → Crashes settings rows rows
  claims :
      (limit now : ℕ) (locked : String → Bool) (rows after : List JobRow)
      → Crashes settings (claim_pending limit now locked rows).0 after
      → Crashes settings rows after
  recovers :
      (now : ℕ) (rows after : List JobRow)
      → Crashes settings (reclaim_stale_jobs settings now rows) after
      → Crashes settings rows after

module _ (settings : WorkerSettings) (id : String) (attempts : ℕ) where
  -- If a row is that of the job, it is not over and has counted so many attempts.
  abbrev pub IsAlive : JobRow → Type 0
  IsAlive r =
      r.id ≡ id
      → ((is_pending r.status || is_running r.status) ≡ true) × (r.attempt_count ≡ attempts)

  -- The job is in the table, and is not over.
  abbrev pub Alive : List JobRow → Type 0
  Alive rows = (elem id (map (λ r. r.id) rows) ≡ true) × All IsAlive rows

  Alive-changed :
      (b : JobRow → Bool) (f : JobRow → JobRow) (rows : List JobRow)
      → ((r : JobRow) → (f r).id ≡ r.id)
      → ((r : JobRow) → b r ≡ true → IsAlive r → IsAlive (f r))
      → Alive rows
      → Alive (map (λ r. if b r then f r else r) rows)
  Alive-changed b f rows same k (there, h) = (rw (ids rows) there, changed rows h)
    where
      ids :
          (rows : List JobRow)
          → map (λ r. r.id) (map (λ r. if b r then f r else r) rows) ≡ map (λ r. r.id) rows
      ids [] = refl
      ids (r ∷ rows) =
          ap₂ (λ i is. i ∷ is) (if_both (λ (s : JobRow). s.id ≡ r.id) (b r) (same r) refl)
            (ids rows)

      changed :
          (rows : List JobRow)
          → All IsAlive rows
          → All IsAlive (map (λ r. if b r then f r else r) rows)
      changed [] h = tt
      changed (r ∷ rows) h = elim (Bool-cases (b r)) [
        | inl e ↦ rw e (k r e h.0, changed rows h.1)
        | inr e ↦ rw e (h.0, changed rows h.1)
      ]

  claim-Alive :
      (limit now : ℕ) (locked : String → Bool) (rows : List JobRow)
      → Alive rows
      → Alive (claim_pending limit now locked rows).0
  unfolding claim_pending claim
  claim-Alive limit now locked rows h =
      Alive-changed (λ r. elem r.id (lock_due limit now locked rows)) (claimed now) rows (λ r. refl)
        (λ r b a e. (refl, (a e).1)) h

  requeue-Alive :
      (next : ℕ) (job_id : String) (rows : List JobRow)
      → Alive rows
      → Alive (requeue job_id next rows)
  unfolding requeue where_id
  requeue-Alive next job_id rows h =
      Alive-changed (λ r. r.id == job_id) (requeued next) rows (λ r. refl)
        (λ r b a e. (refl, (a e).1)) h

  reclaim_job-Alive :
      (now : ℕ) (job : JobRow) (rows : List JobRow)
      → ltb attempts settings.max_attempts ≡ true
      → IsAlive job
      → Alive rows
      → Alive (reclaim_job settings now job rows)
  unfolding reclaim_job update updated where_id
  reclaim_job-Alive now job rows left a h =
      elim (Bool-cases (ltb job.attempt_count settings.max_attempts)) [
        | inl e ↦
            rw (e, reclaim_job)
              (requeue-Alive (retry_at settings now job.attempt_count) job.id rows h)
        | inr e ↦
            rw (e, reclaim_job)
              (Alive-changed (λ r. r.id == job.id) (updated failed timeout_change now) rows
                (λ r. refl)
                (λ r b k at.
                  let mine : job.id ≡ id = sym ((string_eq.same_iff r.id job.id).0 b) ∙ at in
                  let spent : ltb attempts settings.max_attempts ≡ false = rw (sym (a mine).1) e in
                  cc)
                h)
      ]

  reclaim_each-Alive :
      (now : ℕ) (jobs rows : List JobRow)
      → ltb attempts settings.max_attempts ≡ true
      → All IsAlive jobs
      → Alive rows
      → Alive (reclaim_each settings now jobs rows)
  unfolding reclaim_each
  reclaim_each-Alive now [] rows left a h = h
  reclaim_each-Alive now (job ∷ jobs) rows left a h =
      reclaim_each-Alive now jobs _ left a.1 (reclaim_job-Alive now job rows left a.0 h)

  reclaim-Alive :
      (now : ℕ) (rows : List JobRow)
      → ltb attempts settings.max_attempts ≡ true
      → Alive rows
      → Alive (reclaim_stale_jobs settings now rows)
  unfolding reclaim_stale_jobs list_stale_running first_by
  reclaim-Alive now rows left h =
      reclaim_each-Alive now _ rows left (All-query IsAlive _ _ 50 _ rows h.1) h

  -- Claims and recovery passes alone, as when each worker dies before the first stage of the
  -- pipeline, never end a job, whatever else is in the table: one that is PENDING or RUNNING with
  -- attempts left stays in the table and stays so through any number of them, with the same count
  -- of attempts.
  pub Crashes-Alive :
      (rows after : List JobRow)
      → Crashes settings rows after
      → ltb attempts settings.max_attempts ≡ true
      → Alive rows
      → Alive after
  Crashes-Alive _ _ (stop rows) left h = h
  Crashes-Alive _ _ (claims limit now locked rows after rest) left h =
      Crashes-Alive _ after rest left (claim-Alive limit now locked rows h)
  Crashes-Alive _ _ (recovers now rows after rest) left h =
      Crashes-Alive _ after rest left (reclaim-Alive now rows left h)
