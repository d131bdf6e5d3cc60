-- ===== src/Jobs/Worker.antt =====
-- workers/ingestion_worker.py: the recovery of jobs that a crashed worker left RUNNING, and the
-- claim of a batch. The clock stands still while a pass runs.
use lrllm.Prelude.{ℕ, ◌+◌, ◌-◌, ◌*◌, max, some, List, [], ◌∷◌, ltb, if◌then◌else◌}
use lrllm.Jobs.Table.{failed, JobRow, JobChange, no_change, requeue, update, list_stale_running}

-- The settings that the worker reads, in seconds.
pub record WorkerSettings : Type 0 where
  pub max_attempts : ℕ
  pub retry_backoff : ℕ
  pub stale_timeout : ℕ

abbrev pub timeout_change : JobChange
timeout_change = record no_change {
  stage = some "TIMEOUT";
  error_code = some "JOB_TIMEOUT";
  error_message = some "job stayed RUNNING beyond the stale timeout";
}

module _ (settings : WorkerSettings) (now : ℕ) where
  -- When a job whose worker died may be tried again.
  abbrev pub retry_at : ℕ → ℕ
  retry_at attempts = now + settings.retry_backoff * max attempts 1

  -- The body of the loop, for one stale job.
  unfoldable pub reclaim_job : JobRow → List JobRow → List JobRow
  reclaim_job job rows =
      if ltb job.attempt_count settings.max_attempts
      then requeue job.id (retry_at job.attempt_count) rows
      else update job.id failed timeout_change now rows

  unfoldable pub reclaim_each : List JobRow → List JobRow → List JobRow
  reclaim_each [] rows = rows
  reclaim_each (job ∷ jobs) rows = reclaim_each jobs (reclaim_job job rows)

  -- `reclaim_stale_jobs`; 50 is the default limit of `list_stale_running`.
  unfoldable pub reclaim_stale_jobs : List JobRow → List JobRow
  reclaim_stale_jobs rows =
      reclaim_each (list_stale_running (now - settings.stale_timeout) 50 rows) rows
