-- ===== src/Ingestion/Pipeline/Attempts.antt =====
-- A job that the worker takes again and again: a claim and a call of `process` for each attempt,
-- while the job is PENDING, whatever the services do at each of them.
use lrllm.Prelude.{
  ℕ, suc, ◌+◌, ◌≤◌, ◌<◌, ◌≡◌, refl, ap, ◌∙◌, ◌⊎◌, inl, inr, Bool, true, false, String, none, some,
  List, [], ◌∷◌, length, elem, ◌==◌, string_eq, if◌then◌else◌, arith,
}
use lrllm.Jobs.Table.{JobRow, pending, succeeded, failed as job_failed, is_pending, claim, claimed}
use lrllm.Ingestion.Store.{DocumentRow, Db, get_job, get_document}
use lrllm.Ingestion.Services.{
  IngestionResult, Services, PipelineSettings, Reply, done, fault, ingestion_error, other_error,
}
use lrllm.Ingestion.Pipeline.{Processed, on_jobs, process}
use lrllm.Ingestion.Pipeline.Kept.{JobAt, DocumentAt, first-where}
use lrllm.Ingestion.Pipeline.Outcomes.{OutcomeOf, process-IsOutcome}

-- Whether a job is there and PENDING.
abbrev pub awaits : String → Db → Bool
awaits job_id db = elim (get_job job_id db) [ none ↦ false | some j ↦ is_pending j.status ]

abbrev pub IsSettled : String → Db → Type 0
IsSettled = JobAt (λ j. (j.status ≡ succeeded) ⊎ (j.status ≡ job_failed))

claim-get_job :
    (job_id : String) (now : ℕ) (db : Db) (job : JobRow)
    → get_job job_id db ≡ some job
    → get_job job_id (on_jobs (claim now (job_id ∷ [])) db) ≡ some (claimed now job)
unfolding get_job claim
claim-get_job job_id now db job found =
    first-where (λ x. x.id == job_id) (λ x. elem x.id (job_id ∷ [])) (claimed now) db.jobs
      (λ x e. ground (arith, e)) (λ x. refl) job found

claim-get_document :
    (id : String) (f : List JobRow → List JobRow) (db : Db)
    → get_document id (on_jobs f db) ≡ get_document id db
unfolding get_document
claim-get_document id f db = refl

settled-waits : (job_id : String) (db : Db) → IsSettled job_id db → awaits job_id db ≡ false
settled-waits job_id db (j, found, inl e) = rw (found, awaits, e) refl
settled-waits job_id db (j, found, inr e) = rw (found, awaits, e) refl

-- A run left the job PENDING, with attempts left and its document in place.
abbrev Waits : PipelineSettings → String → ℕ → String → Db → Type 0
Waits settings job_id attempt document_id db =
    (attempt < settings.max_attempts)
    × JobAt
        (λ j. (j.status ≡ pending) × (j.attempt_count ≡ attempt) × (j.document_id ≡ document_id))
        job_id db
    × DocumentAt (λ d. Unit) document_id db

module _ {Vector Points : Type 0} (settings : PipelineSettings) (job_id : String) where
  -- The calls, each with the services and the time that it meets.
  unfoldable pub process_again : List (Services Vector Points × ℕ) → Db → Points → Db × Points
  unfolding process claim get_job
  process_again [] db points = (db, points)
  process_again ((services, now) ∷ later) db points =
      let p = process services settings now job_id (on_jobs (claim now (job_id ∷ [])) db) points in
      let rest = process_again later p.db p.points in
      if awaits job_id db then rest else (db, points)

  again_after_end :
      (calls : List (Services Vector Points × ℕ)) (db : Db) (points : Points)
      → IsSettled job_id db
      → IsSettled job_id (process_again calls db points).0
  unfolding process_again
  again_after_end [] db points h = h
  again_after_end ((services, now) ∷ later) db points h =
      rw (settled-waits job_id db h, process_again) h

  outcome_settles :
      (attempt : ℕ) (services : Services Vector Points) (now : ℕ) (document_id : String) (db : Db)
      (points : Points) (p : Processed Points) (r : Reply IngestionResult)
      → OutcomeOf job_id attempt services settings now document_id db points p r
      → IsSettled job_id p.db ⊎ Waits settings job_id attempt document_id p.db
  outcome_settles attempt services now document_id db points p (done r) (inl h) =
      let (j, found, k) = h.0 in inl (j, found, inl k.0)
  outcome_settles attempt services now document_id db points p (done r) (inr h) =
      let (j, found, k) = h.0 in inl (j, found, inl k.0)
  outcome_settles attempt services now document_id db points p (fault (ingestion_error c m s))
        (inl h) =
      let (j, found, k) = h.1 in
      let (d, held, e) = h.2 in
      inr (ground (arith, h.0), (j, found, (k.0, k.1, k.2)), (d, held, tt))
  outcome_settles attempt services now document_id db points p (fault (ingestion_error c m s))
        (inr h) =
      let (j, found, k) = h.1 in inl (j, found, inr k.0)
  outcome_settles attempt services now document_id db points p (fault (other_error m)) h = absurd h

  -- The attempts on a job end: claimed and processed again and again, with services that may fail
  -- anew each time, a PENDING job whose document is there has SUCCEEDED or FAILED once it was given
  -- one call and all the attempts that the settings allow.
  pub process_again-IsSettled :
      (calls : List (Services Vector Points × ℕ)) (db : Db) (points : Points) (job : JobRow)
      (document : DocumentRow)
      → get_job job_id db ≡ some job
      → job.status ≡ pending
      → get_document job.document_id db ≡ some document
      → 1 ≤ length calls
      → settings.max_attempts ≤ job.attempt_count + length calls
      → IsSettled job_id (process_again calls db points).0
  unfolding process_again
  process_again-IsSettled [] db points job document found waits held one enough =
      ground (arith, one)
  process_again-IsSettled ((services, now) ∷ later) db points job document found waits held one
        enough =
      let taken = on_jobs (claim now (job_id ∷ [])) db in
      let attempt = suc job.attempt_count in
      let p = process services settings now job_id taken points in
      let outcome =
        process-IsOutcome job_id attempt services settings now taken points (claimed now job)
          document (claim-get_job job_id now db job found)
          (claim-get_document job.document_id (claim now (job_id ∷ [])) db ∙ held) refl in
      let due : awaits job_id db ≡ true = rw (found, awaits, waits) refl in
      rw (due, process_again)
        (elim (outcome_settles attempt services now document.id taken points p p.reply outcome) [
          | inl settled ↦ again_after_end later p.db p.points settled
          | inr (left, (j, again, k), (d, there, _)) ↦
              process_again-IsSettled later p.db p.points j d again k.0
                (ap (λ i. get_document i p.db) k.2 ∙ there) (omega (arith, left, enough))
                (omega (arith, left, enough, k.1))
        ])
