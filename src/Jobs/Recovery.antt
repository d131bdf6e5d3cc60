-- ===== src/Jobs/Recovery.antt =====
-- The recovery pass of the worker: the loop over the stale jobs against one change of the table.
use mathlib.Core.List.{Nodup, Nodup-cons}
use lrllm.Prelude.{
  ℕ, ◌-◌, min, ◌≡◌, refl, ◌∙◌, ap, Bool, true, false, String, List, [], ◌∷◌, map, select, length,
  arith, elem, ◌==◌, string_eq, eq_self, All, All-mono, map-cong, elem-query, Nodup-query,
  select-OnlyIf, IsOnly, rows-IsOnly, All-query, length-sort_desc, length-take, ltb, Bool-cases,
  inl, inr, ◌⊎◌, if◌then◌else◌, get_or, not-mem→elem,
}
use lrllm.Jobs.Table.{
  JobRow, failed, is_stale, requeued, requeue, updated, update, where_id, list_stale_running,
  first_by,
}
use lrllm.Jobs.Claims.{job_ids}
use lrllm.Jobs.Worker.{
  WorkerSettings, timeout_change, retry_at, reclaim_job, reclaim_each, reclaim_stale_jobs,
}

module _ (settings : WorkerSettings) (now : ℕ) where
  -- A stale job after the pass: pending again, later the more it was tried, while it has attempts
  -- left, else failed with its reason.
  abbrev pub recovered : JobRow → JobRow
  recovered r =
      if ltb r.attempt_count settings.max_attempts
      then requeued (retry_at settings now r.attempt_count) r
      else updated failed timeout_change now r

  -- What the loop does to a row, job by job.
  abbrev body_for : JobRow → JobRow → JobRow
  body_for job r =
      if ltb job.attempt_count settings.max_attempts
      then requeued (retry_at settings now job.attempt_count) r
      else updated failed timeout_change now r

  act : JobRow → JobRow → JobRow
  act job r = if r.id == job.id then body_for job r else r

  act_all : List JobRow → JobRow → JobRow
  act_all [] r = r
  act_all (job ∷ jobs) r = act_all jobs (act job r)

  reclaim_job-map :
      (job : JobRow) (rows : List JobRow) → reclaim_job settings now job rows ≡ map (act job) rows
  unfolding reclaim_job act requeue update where_id
  reclaim_job-map job rows = either_way (ltb job.attempt_count settings.max_attempts)
    where
      either_way :
          (b : Bool)
          → (if b
              then requeue job.id (retry_at settings now job.attempt_count) rows
              else update job.id failed timeout_change now rows)
            ≡ map
                (λ r.
                  if r.id == job.id
                  then (if b
                      then requeued (retry_at settings now job.attempt_count) r
                      else updated failed timeout_change now r)
                  else r)
                rows
      either_way true = refl
      either_way false = refl

  map_after :
      (f g : JobRow → JobRow) (rows : List JobRow) → map g (map f rows) ≡ map (λ r. g (f r)) rows
  map_after f g [] = refl
  map_after f g (r ∷ rows) = ap (◌∷◌ (g (f r))) (map_after f g rows)

  map_same : (rows : List JobRow) → rows ≡ map (λ r. r) rows
  map_same [] = refl
  map_same (r ∷ rows) = ap (◌∷◌ r) (map_same rows)

  reclaim_each-map :
      (jobs rows : List JobRow) → reclaim_each settings now jobs rows ≡ map (act_all jobs) rows
  unfolding reclaim_each act_all
  reclaim_each-map [] rows = map_same rows
  reclaim_each-map (job ∷ jobs) rows =
      rw (reclaim_job-map job rows, reclaim_each-map jobs (map (act job) rows))
        (map_after (act job) (act_all jobs) rows)

  untouched :
      (jobs : List JobRow) (r : JobRow) → elem r.id (job_ids jobs) ≡ false → act_all jobs r ≡ r
  unfolding act_all act
  untouched [] r h = refl
  untouched (job ∷ jobs) r h = elim (Bool-cases (r.id == job.id)) [
    | inl same ↦ absurd (ground arith)
    | inr other ↦ rw other (untouched jobs r (ground arith))
  ]

  body_for-id : (r : JobRow) → (body_for r r).id ≡ r.id
  unfolding updated
  body_for-id r = elim (Bool-cases (ltb r.attempt_count settings.max_attempts)) [
    | inl more ↦ rw more refl
    | inr last ↦ rw last refl
  ]

  act_all_lem :
      (jobs : List JobRow) (r : JobRow)
      → Nodup (job_ids jobs)
      → All (IsOnly (λ r. r.id) r) jobs
      → act_all jobs r ≡ (if elem r.id (job_ids jobs) then recovered r else r)
  unfolding act_all act
  act_all_lem [] r d h = refl
  act_all_lem (job ∷ jobs) r d h = elim h.0 [
    | inl other ↦ rw other (act_all_lem jobs r (Nodup-cons.0 d).1 h.1)
    | inr same ↦
        let fresh : elem r.id (job_ids jobs) ≡ false =
          rw (← same) (not-mem→elem _ _ (Nodup-cons.0 d).0) in
        rw (same, eq_self r.id) (untouched jobs (body_for r r) (rw (body_for-id r) fresh))
  ]

  -- The jobs that the pass finds.
  abbrev pub stale_jobs : List JobRow → List JobRow
  stale_jobs = list_stale_running (now - settings.stale_timeout) 50

  -- What the pass made of `rows`.
  pub record IsRecovery (rows after : List JobRow) : Type 0 where
    pub count :
        length (stale_jobs rows)
        ≡ min 50 (length (select (is_stale (now - settings.stale_timeout)) rows))
    pub only_stale :
        All
          (λ r.
            (elem r.id (job_ids (stale_jobs rows)) ≡ false)
            ⊎ (is_stale (now - settings.stale_timeout) r ≡ true))
          rows
    pub effect :
        after ≡ map (λ r. if elem r.id (job_ids (stale_jobs rows)) then recovered r else r) rows

  -- In a table without two rows of one id, the pass takes up as many jobs as are RUNNING for longer
  -- than the timeout, at most 50, and no other job; each of these becomes PENDING, to be tried
  -- after the backoff, if its attempts are fewer than allowed, else FAILED with JOB_TIMEOUT; every
  -- other row stays.
  pub reclaim_stale_jobs_lem :
      (rows : List JobRow)
      → Nodup (job_ids rows)
      → IsRecovery rows (reclaim_stale_jobs settings now rows)
  unfolding reclaim_stale_jobs list_stale_running first_by
  reclaim_stale_jobs_lem rows d =
      let id_of : JobRow → String = λ r. r.id in
      let stale = is_stale (now - settings.stale_timeout) in
      let gt : ℕ → ℕ → Bool = λ a b. ltb a b in
      let key : JobRow → ℕ = λ r. get_or r.started_at 0 in
      record {
        count = length-take 50 _ ∙ rw (length-sort_desc id_of gt key (select stale rows)) refl;
        only_stale =
            All-mono
              (λ r h. elim h [
                | inr old ↦ inr old
                | inl fresh ↦ elim (Bool-cases (elem r.id (job_ids (stale_jobs rows)))) [
                  | inr new ↦ inl new
                  | inl found ↦
                      absurd
                        (ground (arith, fresh, elem-query id_of gt key r.id 50 stale rows found))
                ]
              ])
              rows (select-OnlyIf id_of stale rows d);
        effect =
            reclaim_each-map (stale_jobs rows) rows
            ∙ map-cong _ _ rows (
                All-mono
                  (λ r h.
                    act_all_lem (stale_jobs rows) r (Nodup-query id_of gt key 50 stale rows d)
                      (All-query (IsOnly id_of r) gt key 50 stale rows h))
                  rows (rows-IsOnly id_of rows d));
      }
