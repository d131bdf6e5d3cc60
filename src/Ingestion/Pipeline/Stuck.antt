-- ===== src/Ingestion/Pipeline/Stuck.antt =====
-- A document whose chunks are in the table cannot be processed again: the stage SECTION deletes its
-- sections while the chunks still name them, and the database refuses.
use lrllm.Prelude.{
  ℕ, suc, ◌≡◌, refl, sym, subst, inl, inr, true, false, String, Text, none, some, List, map,
  Bool-cases, Option-cases,
}
use lrllm.Jobs.Table.{JobRow}
use lrllm.Ingestion.Metadata.{resolve_metadata}
use lrllm.Ingestion.Semantic.{AstBlock}
use lrllm.Ingestion.Store.{
  DocumentRow, Db, get_job, get_document, any_of, names_section, sections_of, delete_sections,
  update_metadata, update_processing, where_document, update_status,
}
use lrllm.Ingestion.Services.{
  code_value, stage_error_code, stage_name, Stage, in_parse, Fault, ingestion_error, other_error,
  Reply, done, fault, DocumentAst, Parser, Services, PipelineSettings, IngestionResult,
}
use lrllm.Ingestion.Pipeline.{
  World, Step, go, stop, reply_at, Processed, conclude, mark_started, metadata_stage, section_stage,
  run_stages, process_document, process, is_unchanged, handle_failure, may_retry, parser_of,
  fingerprint_of,
}
use lrllm.Ingestion.Pipeline.Kept.{Ends, and_then-Ends}
use lrllm.Ingestion.Pipeline.Running.{Resolution-cases}

-- Some chunk names a section of the document.
abbrev pub AreNamed : String → Db → Type 0
AreNamed id db = any_of (names_section (map (λ s. s.id) (sections_of id db))) db.chunks ≡ true

-- What a run that does not complete leaves of the sections and the chunks.
abbrev pub SameRows : Db → Db → Type 0
SameRows db after = (after.sections ≡ db.sections) × (after.chunks ≡ db.chunks)

module _ (db : Db) {Vector Points : Type 0} (services : Services Vector Points)
    (settings : PipelineSettings) (now : ℕ) where
  abbrev Untouched : World Points → Type 0
  Untouched w = SameRows db w.session × SameRows db w.committed

  abbrev Blocked : World Points → Stage → Fault → Type 0
  Blocked w stage f = SameRows db w.committed

  metadata_stage-Untouched :
      (document : DocumentRow) (parser : Parser) (fingerprint : Text) (ast : DocumentAst)
      (w : World Points)
      → Untouched w
      → Ends
          (λ w _. Untouched w)
          Blocked
          (metadata_stage services settings now document parser fingerprint ast w)
  unfolding metadata_stage update_metadata update_processing where_document
  metadata_stage-Untouched document parser fingerprint ast w h =
      elim (Resolution-cases
        (resolve_metadata services.string_ops ast.explicit ast.front_matter none)) [
          | inl (fs, r) ↦ rw (r, metadata_stage) (h.1)
          | inr (m, r) ↦ rw (r, metadata_stage) h
        ]

  section_stage-Blocked :
      (id : String) (blocks : List AstBlock) (w : World Points)
      → AreNamed id db
      → Untouched w
      → Ends (λ w _. ⊥) Blocked (section_stage services settings now id blocks w)
  unfolding section_stage
  section_stage-Blocked id blocks w named h =
      let refused : delete_sections id w.session ≡ none =
        rw (delete_sections, h.0.0, h.0.1, named) refl in
      rw (refused, section_stage) (h.1)

  run_stages-Blocked :
      (job_id : String) (document : DocumentRow) (parser : Parser) (fingerprint : Text)
      (w : World Points)
      → AreNamed document.id db
      → Untouched w
      → Ends
          (λ w _. ⊥)
          Blocked
          (run_stages services settings now job_id document parser fingerprint w)
  unfolding run_stages
  run_stages-Blocked job_id document parser fingerprint w named h =
      and_then-Ends (λ w _. Untouched w) (λ w _. ⊥) Blocked
        (reply_at in_parse w (parser.parse document.content)) _
        (reply_at-Untouched (parser.parse document.content))
        (λ w ast h.
          and_then-Ends (λ w _. Untouched w) (λ w _. ⊥) Blocked
            (metadata_stage services settings now document parser fingerprint ast w) _
            (metadata_stage-Untouched document parser fingerprint ast w h)
            (λ w m h.
              and_then-Ends (λ w _. ⊥) (λ w _. ⊥) Blocked
                (section_stage services settings now document.id ast.blocks w) _
                (section_stage-Blocked document.id ast.blocks w named h) (λ w filed h. absurd h)))
    where
      reply_at-Untouched :
          (r : Reply DocumentAst) → Ends (λ w _. Untouched w) Blocked (reply_at in_parse w r)
      reply_at-Untouched (done a) = h
      reply_at-Untouched (fault f) = h.1

  handle_failure-SameRows :
      (job_id code message stage : String) (attempt : ℕ) (before : Db)
      → SameRows db before
      → SameRows db (handle_failure services settings now job_id code message stage attempt before)
  unfolding handle_failure update_status where_document
  handle_failure-SameRows job_id code message stage attempt before h =
      elim (Option-cases (get_job job_id before)) [
        | inl e ↦ rw (e, handle_failure) h
        | inr (job, e) ↦ elim (Bool-cases (may_retry services settings now code attempt)) [
          | inl r ↦ rw (e, handle_failure, r) h
          | inr r ↦ rw (e, handle_failure, r) h
        ]
      ]

  conclude-Raises :
      (job_id : String) (attempt : ℕ) (s : Step Points IngestionResult)
      → Ends (λ w _. ⊥) Blocked s
      → let p = conclude services settings now job_id attempt s in
        ((f : Fault) × (p.reply ≡ fault f)) × SameRows db p.db
  unfolding conclude
  conclude-Raises job_id attempt (go w r) h = absurd h
  conclude-Raises job_id attempt (stop w stage (ingestion_error code message at)) h = (
    (ingestion_error code message at, refl),
    handle_failure-SameRows job_id code message at attempt w.committed h,
  )
  conclude-Raises job_id attempt (stop w stage (other_error message)) h =
      let code = code_value (stage_error_code stage) in
      (
        (ingestion_error code message (stage_name stage), refl),
        handle_failure-SameRows job_id code message (stage_name stage) attempt w.committed h,
      )

  -- As long as a chunk in the table names a section of a document, `process` raises for every job of
  -- it whose fingerprint has changed or that is not READY, whatever the services do, and leaves
  -- the sections and the chunks as they are, so that the next call meets the same.
  pub process-Raises :
      (job_id : String) (points : Points) (job : JobRow) (document : DocumentRow)
      → get_job job_id db ≡ some job
      → get_document job.document_id db ≡ some document
      → is_unchanged services settings now document (fingerprint_of services settings now document)
        ≡ false
      → AreNamed document.id db
      → let p = process services settings now job_id db points in
        ((f : Fault) × (p.reply ≡ fault f)) × SameRows db p.db
  unfolding process process_document mark_started update_status where_document
  process-Raises job_id points job document found held changed named =
      let w : World Points = record { session = db; committed = db; points = points } in
      let attempt = suc job.attempt_count in
      let started = mark_started services settings now job_id document.id attempt w in
      let same : process services settings now job_id db points
          ≡ conclude services settings now job_id attempt (
              run_stages services settings now job_id document
                (parser_of services settings now document)
                (fingerprint_of services settings now document) started) =
        rw (found, process, held, process_document, changed) refl in
      subst (λ (p : Processed Points). ((f : Fault) × (p.reply ≡ fault f)) × SameRows db p.db)
        (sym same)
        (conclude-Raises job_id attempt _ (
          run_stages-Blocked job_id document (parser_of services settings now document)
            (fingerprint_of services settings now document) started named
            ((refl, refl), (refl, refl))))
