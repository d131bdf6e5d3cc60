-- ===== src/Ingestion/Pipeline/Running.antt =====
-- While `process` runs, the job stays RUNNING with its attempt counted and the document PROCESSING,
-- in the session and in what is committed.
use lrllm.Prelude.{
  ℕ, ◌≡◌, refl, sym, ap, String, Text, none, some, List, map, ◌⊎◌, select, not, ◌==◌, string_eq,
  Bool-cases, inl, inr, Option-cases,
}
use lrllm.Jobs.Table.{JobRow, running, update, updated, no_change}
use lrllm.Ingestion.Metadata.{
  Field, resolved, conflict, ResolvedMetadata, resolve_metadata, Resolution,
}
use lrllm.Ingestion.Semantic.{AstBlock}
use lrllm.Ingestion.Sections.{build_sections}
use lrllm.Ingestion.Store.{
  DocumentRow, processing, Db, get_job, get_document, update_status, where_document,
  update_metadata, update_processing, delete_sections, any_of, names_section, sections_of,
  create_sections, update_parents,
}
use lrllm.Ingestion.ChunkRows.{zip_strict}
use lrllm.Ingestion.Services.{
  Stage, Fault, Reply, done, fault, DocumentAst, Parser, Services, PipelineSettings,
}
use lrllm.Ingestion.Pipeline.{
  World, reply_at, on_jobs, mark_started, metadata_stage, section_stage, parent_pairs,
}
use lrllm.Ingestion.Pipeline.Kept.{
  JobAt, DocumentAt, JobAt-where_id, DocumentAt-where, JobAt-where_document, DocumentAt-on_jobs,
  Ends,
}

pub Resolution-cases :
    (r : Resolution)
    → ((fs : List Field) × (r ≡ conflict fs)) ⊎ ((m : ResolvedMetadata) × (r ≡ resolved m))
Resolution-cases (conflict fs) = inl (fs, refl)
Resolution-cases (resolved m) = inr (m, refl)

delete_sections-same :
    (id : String) (db after : Db)
    → delete_sections id db ≡ some after
    → (after.jobs ≡ db.jobs) × (after.documents ≡ db.documents)
unfolding delete_sections
delete_sections-same id db after h =
    elim (Bool-cases (any_of (names_section (map (λ s. s.id) (sections_of id db))) db.chunks)) [
      | inl e ↦ let refused : delete_sections id db ≡ none = rw e refl in cc
      | inr e ↦
          let kept : Db = record db {
            sections = select (λ s. not (s.section.document_id == id)) db.sections;
          } in
          let found : delete_sections id db ≡ some kept = rw e refl in
          let same : kept ≡ after = cc in
          (sym (ap (λ d. d.jobs) same), sym (ap (λ d. d.documents) same))
    ]

module _ (job_id document_id : String) (attempt : ℕ) where
  abbrev pub IsRunningJob : JobRow → Type 0
  IsRunningJob r =
      (r.status ≡ running) × (r.attempt_count ≡ attempt) × (r.document_id ≡ document_id)

  abbrev pub Running : Db → Type 0
  Running db = JobAt IsRunningJob job_id db × DocumentAt (λ d. d.status ≡ processing) document_id db

  -- The jobs and the documents are all that counts.
  pub Running-same :
      (db after : Db)
      → after.jobs ≡ db.jobs
      → after.documents ≡ db.documents
      → Running db
      → Running after
  unfolding get_job get_document
  Running-same db after j d h = rw (j, d) h

  module _ {Points : Type 0} where
    abbrev pub Live : World Points → Type 0
    Live w = Running w.session × Running w.committed

    abbrev pub Halted : World Points → Stage → Fault → Type 0
    Halted w stage f = Running w.committed

    pub reply_at-Ends :
        {A : Type 0} (G : World Points → A → Type 0) (stage : Stage) (w : World Points)
        (r : Reply A)
        → ((a : A) → r ≡ done a → G w a)
        → Running w.committed
        → Ends G Halted (reply_at stage w r)
    reply_at-Ends G stage w (done a) h k = h a refl
    reply_at-Ends G stage w (fault f) h k = k

  Running-started :
      (now : ℕ) (db : Db)
      → JobAt (λ r. r.document_id ≡ document_id) job_id db
      → DocumentAt (λ d. Unit) document_id db
      → Running (
          update_status document_id processing none none now (
            on_jobs
              (update job_id running
                (record no_change { stage = some "PARSE"; attempt_count = some attempt })
                now)
              db))
  unfolding update updated update_status
  Running-started now db j d =
      let change = record no_change { stage = some "PARSE"; attempt_count = some attempt } in
      let counted =
        JobAt-where_id {Q = IsRunningJob} job_id (updated running change now) db (λ x. refl)
          (λ x p. (refl, refl, p)) j in
      let kept = DocumentAt-on_jobs document_id (update job_id running change now) db d in
      (
        JobAt-where_document job_id document_id _ _ counted,
        DocumentAt-where document_id _ _ (λ x. refl) (λ x. refl) (λ x p. refl) kept,
      )

  Running-where :
      (f : DocumentRow → DocumentRow) (db : Db)
      → ((x : DocumentRow) → (f x).id ≡ x.id)
      → ((x : DocumentRow) → (f x).deleted_at ≡ x.deleted_at)
      → ((x : DocumentRow) → x.status ≡ processing → (f x).status ≡ processing)
      → Running db
      → Running (where_document document_id f db)
  Running-where f db hid hdel h (j, d) = (
    JobAt-where_document job_id document_id f db j,
    DocumentAt-where document_id f db hid hdel h d,
  )

  pub Running-stage :
      (stage : String) (now : ℕ) (db : Db)
      → Running db
      → Running (on_jobs (update job_id running (record no_change { stage = some stage }) now) db)
  unfolding update updated
  Running-stage stage now db (j, d) =
      let change = record no_change { stage = some stage } in
      (
        JobAt-where_id {Q = IsRunningJob} job_id (updated running change now) db (λ x. refl)
            (λ x p. (refl, p.1, p.2)) j,
        DocumentAt-on_jobs document_id (update job_id running change now) db d,
      )

  module _ {Vector Points : Type 0} (services : Services Vector Points)
      (settings : PipelineSettings) (now : ℕ) where
    pub mark_started-Live :
        (w : World Points)
        → JobAt (λ r. r.document_id ≡ document_id) job_id w.session
        → DocumentAt (λ d. Unit) document_id w.session
        → Live (mark_started services settings now job_id document_id attempt w)
    unfolding mark_started
    mark_started-Live w j d = let r = Running-started now w.session j d in (r, r)

    pub metadata_stage-Live :
        (document : DocumentRow) (parser : Parser) (fingerprint : Text) (ast : DocumentAst)
        (w : World Points)
        → document.id ≡ document_id
        → Live w
        → Ends
            (λ w _. Live w)
            Halted
            (metadata_stage services settings now document parser fingerprint ast w)
    unfolding metadata_stage update_metadata update_processing
    metadata_stage-Live document parser fingerprint ast w e h =
        elim (Resolution-cases
          (resolve_metadata services.string_ops ast.explicit ast.front_matter none)) [
            | inl (fs, r) ↦ rw (r, metadata_stage) (h.1)
            | inr (m, r) ↦
                rw (r, metadata_stage, e)
                  (
                    Running-where _ _ (λ x. refl) (λ x. refl) (λ x p. p)
                        (Running-where _ _ (λ x. refl) (λ x. refl) (λ x p. p) h.0),
                    h.1,
                  )
          ]

    pub section_stage-Live :
        (id : String) (blocks : List AstBlock) (w : World Points)
        → Live w
        → Ends (λ w _. Live w) Halted (section_stage services settings now id blocks w)
    unfolding section_stage create_sections update_parents
    section_stage-Live id blocks w h = elim (Option-cases (delete_sections id w.session)) [
      | inl e ↦ rw (e, section_stage) (h.1)
      | inr (db, e) ↦
          let built = build_sections blocks id in
          let (created, ids) = create_sections services.new_id (map (λ b. b.section) built) db in
          let parented = update_parents (parent_pairs ids ids built) created in
          let (jobs, documents) = delete_sections-same id w.session db e in
          let kept = Running-same w.session parented jobs documents h.0 in
          elim (Option-cases (zip_strict (map (λ b. b.path) built) ids)) [
            | inl z ↦ rw (e, section_stage, z) (h.1)
            | inr (pairs, z) ↦ rw (e, section_stage, z) (kept, h.1)
          ]
    ]
