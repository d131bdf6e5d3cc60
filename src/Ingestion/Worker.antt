-- ===== src/Ingestion/Worker.antt =====
-- workers/ingestion_worker.py: the claim of due jobs and the processing of a batch. The jobs of a batch
-- run concurrently in the program; here each runs after the one before. An exception of a job is
-- logged and goes no further.
use lrllm.Prelude.{ℕ, Bool, String, List, [], ◌∷◌}
use lrllm.Jobs.Table.{claim_pending}
use lrllm.Ingestion.Store.{Db}
use lrllm.Ingestion.Services.{Services, PipelineSettings}
use lrllm.Ingestion.Pipeline.{process}

-- `claim_due_jobs`: the tables once the claim is committed, and the ids; `locked` tells the rows
-- that other transactions hold.
unfoldable pub claim_due_jobs : ℕ → ℕ → (String → Bool) → Db → Db × List String
unfolding claim_pending
claim_due_jobs limit now locked db =
    let (jobs, ids) = claim_pending limit now locked db.jobs in (record db { jobs = jobs }, ids)

module _ {Vector Points : Type 0} (services : Services Vector Points) (settings : PipelineSettings)
    (now : ℕ) where
  -- `process_job`
  unfoldable pub process_job : String → Db → Points → Db × Points
  unfolding process
  process_job job_id db points =
      let p = process services settings now job_id db points in (p.db, p.points)

  -- The jobs of a batch.
  unfoldable pub process_batch : List String → Db → Points → Db × Points
  unfolding process_job
  process_batch [] db points = (db, points)
  process_batch (id ∷ ids) db points =
      let (after, left) = process_job id db points in process_batch ids after left

  -- One round of the loop over the database: a claim and its batch.
  unfoldable pub claim_round : ℕ → (String → Bool) → Db → Points → Db × Points
  unfolding claim_due_jobs process_batch
  claim_round limit locked db points =
      let (claimed, ids) = claim_due_jobs limit now locked db in process_batch ids claimed points
