-- ===== src/Ingestion/Pipeline/Outcomes.antt =====
-- What a run of `process` leaves.
use lrllm.Prelude.{
  ℕ, suc, ◌≡◌, refl, sym, subst, ap, ◌∙◌, ◌+◌, ◌*◌, Bool, if◌then◌else◌, ◌⊎◌, inl, inr, true, false,
  String, some, string_eq, ◌==◌, Bool-cases,
}
use lrllm.Core.Errors.{metadata_conflict}
use lrllm.Jobs.Table.{
  JobRow, pending, succeeded, failed as job_failed, update, updated, requeue, requeued, no_change,
}
use lrllm.Ingestion.Store.{
  DocumentStatus, DocumentRow, processing, failed, conflict as document_conflict, Db, get_job,
  get_document, update_status, count_chunks, count_sections,
}
use lrllm.Ingestion.Services.{
  ingestion_error, other_error, Reply, done, fault, Services, PipelineSettings, IngestionResult,
  code_value, stage_error_code, stage_name,
}
use lrllm.Ingestion.Pipeline.{
  World, Step, go, stop, on_jobs, may_retry, handle_failure, Processed, conclude, process_document,
  is_unchanged, parser_of, fingerprint_of, skip_job, process,
}
use lrllm.Ingestion.Pipeline.Kept.{
  get_document-id, JobAt, DocumentAt, JobAt-where_id, DocumentAt-where, JobAt-where_document,
  DocumentAt-on_jobs, Ends,
}
use lrllm.Ingestion.Pipeline.Running.{IsRunningJob, Running, Halted, mark_started-Live}
use lrllm.Ingestion.Pipeline.Fresh.{chunk_ids, mark_started-Fresh}
use lrllm.Ingestion.Pipeline.Completed.{run_stages-IsDone}
use lrllm.Ingestion.Pipeline.Indexed.{IsDone}

module _ (job_id : String) (attempt : ℕ) {Vector Points : Type 0}
    (services : Services Vector Points) (settings : PipelineSettings) (now : ℕ) where
  abbrev pub retryable : String → Bool
  retryable code = may_retry services settings now code attempt

  -- A failed run that is tried again, and one that is not.
  abbrev pub IsRequeued : String → String → Db → Type 0
  IsRequeued document_id code db =
      (retryable code ≡ true)
      × JobAt
          (λ j.
            (j.status ≡ pending)
            × (j.attempt_count ≡ attempt)
            × (j.document_id ≡ document_id)
            × (j.next_attempt_at ≡ some (now + settings.retry_backoff * attempt)))
          job_id db
      × DocumentAt (λ d. d.status ≡ processing) document_id db

  abbrev pub IsFailed : String → String → Db → Type 0
  IsFailed document_id code db =
      (retryable code ≡ false)
      × JobAt
          (λ j. (j.status ≡ job_failed) × (j.attempt_count ≡ attempt) × (j.error_code ≡ some code))
          job_id db
      × DocumentAt
          (λ d.
            (d.status
              ≡ (if code == code_value metadata_conflict then document_conflict else failed))
            × (d.error_code ≡ some code))
          document_id db

  requeue-tables :
      (document_id : String) (next : ℕ) (db : Db)
      → Running job_id document_id attempt db
      → JobAt
          (λ j.
            (j.status ≡ pending)
            × (j.attempt_count ≡ attempt)
            × (j.document_id ≡ document_id)
            × (j.next_attempt_at ≡ some next))
          job_id
          (on_jobs (requeue job_id next) db)
        × DocumentAt (λ d. d.status ≡ processing) document_id (on_jobs (requeue job_id next) db)
  unfolding requeue
  requeue-tables document_id next db (job, document) = (
    JobAt-where_id {P = IsRunningJob job_id document_id attempt} job_id (requeued next) db
        (λ x. refl) (λ x p. (refl, p.1, p.2, refl)) job,
    DocumentAt-on_jobs document_id (requeue job_id next) db document,
  )

  failed_tables :
      (document_id code message stage : String) (status : DocumentStatus) (db : Db)
      → Running job_id document_id attempt db
      → let change = record no_change {
        stage = some stage;
        error_code = some code;
        error_message = some message;
      } in
        let after =
          update_status document_id status
            (some code)
            (some message)
            now
            (on_jobs (update job_id job_failed change now) db) in
        JobAt
          (λ j. (j.status ≡ job_failed) × (j.attempt_count ≡ attempt) × (j.error_code ≡ some code))
          job_id
          after
        × DocumentAt (λ d. (d.status ≡ status) × (d.error_code ≡ some code)) document_id after
  unfolding update updated update_status
  failed_tables document_id code message stage status db (job, document) =
      let change = record no_change {
        stage = some stage;
        error_code = some code;
        error_message = some message;
      } in
      let after =
        JobAt-where_id {P = IsRunningJob job_id document_id attempt}
          {Q = λ j.
            (j.status ≡ job_failed) × (j.attempt_count ≡ attempt) × (j.error_code ≡ some code)}
          job_id (updated job_failed change now) db (λ x. refl) (λ x p. (refl, p.1, refl)) job in
      (
        JobAt-where_document job_id document_id _ _ after,
        DocumentAt-where {P = λ d. d.status ≡ processing} document_id _ _ (λ x. refl) (λ x. refl)
            (λ x p. (refl, refl))
            (DocumentAt-on_jobs document_id (update job_id job_failed change now) db document),
      )

  handle_failure-lem :
      (document_id code message stage : String) (db : Db)
      → Running job_id document_id attempt db
      → IsRequeued document_id code
          (handle_failure services settings now job_id code message stage attempt db)
        ⊎ IsFailed document_id code
            (handle_failure services settings now job_id code message stage attempt db)
  unfolding handle_failure
  handle_failure-lem document_id code message stage db live =
      let ((r, found, is_running), document) = live in
      let next = now + settings.retry_backoff * attempt in
      let status = if code == code_value metadata_conflict then document_conflict else failed in
      elim (Bool-cases (retryable code)) [
        | inl e ↦
            let same : handle_failure services settings now job_id code message stage attempt db
                ≡ on_jobs (requeue job_id next) db =
              rw (found, handle_failure, e) refl in
            let tables = requeue-tables document_id next db live in
            inl (subst (IsRequeued document_id code) (sym same) (e, tables.0, tables.1))
        | inr e ↦
            let change = record no_change {
              stage = some stage;
              error_code = some code;
              error_message = some message;
            } in
            let same : handle_failure services settings now job_id code message stage attempt db
                ≡ update_status document_id status (some code) (some message) now
                    (on_jobs (update job_id job_failed change now) db) =
              rw (found, handle_failure, e, is_running.2) refl in
            let tables = failed_tables document_id code message stage status db live in
            inr (subst (IsFailed document_id code) (sym same) (e, tables.0, tables.1))
      ]

  -- The document was READY under the same fingerprint.
  abbrev pub IsSkipped : String → Db → Points → Processed Points → IngestionResult → Type 0
  IsSkipped document_id db points p r =
      JobAt (λ j. (j.status ≡ succeeded) × (j.chunk_count ≡ some r.chunk_count)) job_id p.db
      × (p.db.documents ≡ db.documents)
      × (p.db.sections ≡ db.sections)
      × (p.db.chunks ≡ db.chunks)
      × (p.points ≡ points)
      × (r.chunk_count ≡ count_chunks document_id true db)
      × (r.skipped ≡ true)

  abbrev pub OutcomeOf : String → Db → Points → Processed Points → Reply IngestionResult → Type 0
  OutcomeOf document_id db points p (done r) =
      IsDone job_id document_id attempt services (chunk_ids document_id db) points
        (record { session = p.db; committed = p.db; points = p.points }) r
      ⊎ IsSkipped document_id db points p r
  OutcomeOf document_id db points p (fault (ingestion_error code message stage)) =
      IsRequeued document_id code p.db ⊎ IsFailed document_id code p.db
  OutcomeOf document_id db points p (fault (other_error message)) = ⊥

  -- What a call of `process` for a job whose document is there leaves and returns: it is done, or it
  -- was skipped and changed the job only, or it raises an `IngestionError` and the job is pending
  -- again or failed for good.
  abbrev pub IsOutcome : String → Db → Points → Processed Points → Type 0
  IsOutcome document_id db points p = OutcomeOf document_id db points p p.reply

  conclude-IsOutcome :
      (document_id : String) (db : Db) (points : Points) (s : Step Points IngestionResult)
      → Ends
          (IsDone job_id document_id attempt services (chunk_ids document_id db) points)
          (Halted job_id document_id attempt)
          s
      → IsOutcome document_id db points (conclude services settings now job_id attempt s)
  unfolding conclude
  conclude-IsOutcome document_id db points (go w r) h = inl h
  conclude-IsOutcome document_id db points (stop w stage (ingestion_error code message at)) h =
      handle_failure-lem document_id code message at w.committed h
  conclude-IsOutcome document_id db points (stop w stage (other_error message)) h =
      handle_failure-lem document_id (code_value (stage_error_code stage)) message
        (stage_name stage) w.committed h

  skip_job-IsOutcome :
      (document_id : String) (db : Db) (points : Points) (job : JobRow)
      → get_job job_id db ≡ some job
      → IsOutcome document_id db points (
          conclude services settings now job_id attempt (
            skip_job services settings now job_id document_id
              (record { session = db; committed = db; points = points })))
  unfolding conclude skip_job update updated
  skip_job-IsOutcome document_id db points job found =
      let children = count_chunks document_id true db in
      let sections = count_sections document_id db in
      let change = record no_change {
        stage = some "HASH";
        section_count = some sections;
        chunk_count = some children;
        embedding_count = some children;
      } in
      let finished =
        JobAt-where_id {P = λ j. Unit}
          {Q = λ j. (j.status ≡ succeeded) × (j.chunk_count ≡ some children)} job_id
          (updated succeeded change now) db (λ x. refl) (λ x p. (refl, refl)) (job, found, tt) in
      inr (finished, refl, refl, refl, refl, refl, refl)

  -- A job whose row and whose document are there either succeeds or raises an `IngestionError`. If it
  -- was not skipped, it succeeds only with the document READY and with the vector store as it was,
  -- less the points of all the chunks that the document had before, and with one point for each
  -- chunk of the document that the table holds now and that is embedded. If it raises,
  -- the attempt is counted, and the job is PENDING again after the back-off with its document
  -- PROCESSING, if the code may be retried and attempts are left, or else FAILED with its code,
  -- and its document CONFLICT or FAILED.
  pub process-IsOutcome :
      (db : Db) (points : Points) (job : JobRow) (document : DocumentRow)
      → get_job job_id db ≡ some job
      → get_document job.document_id db ≡ some document
      → attempt ≡ suc job.attempt_count
      → IsOutcome document.id db points (process services settings now job_id db points)
  unfolding process process_document
  process-IsOutcome db points job document found held counted =
      let at : document.id ≡ job.document_id = get_document-id job.document_id db document held in
      let w : World Points = record { session = db; committed = db; points = points } in
      let started =
        mark_started-Live job_id document.id attempt services settings now w (job, found, sym at)
          (document, ap (λ i. get_document i db) at ∙ held, tt) in
      let old_ids = chunk_ids document.id db in
      let fresh =
        mark_started-Fresh document.id old_ids points services settings now job_id document.id
          attempt w (refl, refl) in
      let parser = parser_of services settings now document in
      let fingerprint = fingerprint_of services settings now document in
      let same : process services settings now job_id db points
          ≡ conclude services settings now job_id attempt
              (process_document services settings now job_id document attempt w) =
        rw (found, process, held, sym counted) refl in
      subst (IsOutcome document.id db points) (sym same)
        (elim (Bool-cases (is_unchanged services settings now document fingerprint)) [
          | inl e ↦ rw (e, process_document) (skip_job-IsOutcome document.id db points job found)
          | inr e ↦
              rw (e, process_document)
                (conclude-IsOutcome document.id db points _ (
                  run_stages-IsDone job_id attempt services settings now old_ids points document
                    parser fingerprint _ (started, fresh)))
        ])
