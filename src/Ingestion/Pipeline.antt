-- ===== src/Ingestion/Pipeline.antt =====
-- app/ingestion/pipeline.py: `process`, from the job's first transition to READY, and
-- `_handle_failure`. A session is a copy of the tables that a commit makes the committed one and an
-- exception drops. The vector store has no transaction: what a call changed stays. A statement has
-- one time, and does not fail but where a foreign key refuses it.
pub mod Kept
pub mod Stored
pub mod Running
pub mod Fresh
pub mod Indexed
pub mod Completed
pub mod Outcomes
pub mod Attempts
pub mod Stuck
mod Examples
use lrllm.Prelude.{
  ℕ, zero, suc, ◌+◌, ◌*◌, Bool, true, false, not, ◌&&◌, String, Text, Option, none, some, List, [],
  ◌∷◌, map, length, ltb, elem, get_elem?, ◌==◌, string_eq, ℕ_eq, list_eq, option_eq, if◌then◌else◌,
  Dict,
}
use lrllm.Core.Errors.{metadata_conflict, database_failed}
use lrllm.Jobs.Table.{running, succeeded, failed as job_failed, JobRow, no_change, update, requeue}
use lrllm.Ingestion.Metadata.{ResolvedMetadata, resolved, conflict, resolve_metadata}
use lrllm.Ingestion.Semantic.{AstBlock, SemanticChunk, ParentChunkNode}
use lrllm.Ingestion.Sections.{Built, build_sections}
use lrllm.Ingestion.Store.{
  DocumentStatus, processing, ready, failed, conflict as document_conflict, is_ready, DocumentRow,
  Chunk, Db, get_job, get_document, update_status, update_metadata, update_processing,
  count_sections, count_chunks, delete_sections, delete_chunks, create_sections, create_chunks,
  update_parents,
}
use lrllm.Ingestion.ChunkRows.{
  zip_strict, dict_of, Scope, embedding_text, ordinals, enumerate, parent_rows, child_rows,
  points_of,
}
use lrllm.Ingestion.Services.{
  code_value, terminal_error_codes, Stage, in_db, in_parse, in_metadata, in_section, in_chunk,
  in_embedding, in_vector_index, stage_name, stage_error_code, Fault, ingestion_error, other_error,
  Reply, done, fault, DocumentAst, Parser, Services, PipelineSettings, IngestionResult, title_of,
  processing_fingerprint,
}

-- The session's tables, the committed ones and the points of the vector store.
pub record World (Points : Type 0) : Type 0 where
  pub session : Db
  pub committed : Db
  pub points : Points

-- What a part of `process` does: it goes on with a value, or an exception leaves it, raised while the
-- variable `stage` has a value.
pub data Step (Points A : Type 0) : Type 0 where
  go : World Points → A → Step Points A
  stop : World Points → Stage → Fault → Step Points A

-- What `process` leaves and returns.
pub record Processed (Points : Type 0) : Type 0 where
  pub db : Db
  pub points : Points
  pub reply : Reply IngestionResult

module _ {Points : Type 0} where
  abbrev pub and_then :
      {A B : Type 0} → Step Points A → (World Points → A → Step Points B) → Step Points B
  and_then (go w a) k = k w a
  and_then (stop w stage f) k = stop w stage f

  abbrev pub commit : World Points → World Points
  commit w = record w { committed = w.session }

  abbrev pub execute : (Db → Db) → World Points → World Points
  execute f w = record w { session = f w.session }

  -- A call that may raise.
  abbrev pub reply_at : {A : Type 0} → Stage → World Points → Reply A → Step Points A
  reply_at stage w (done a) = go w a
  reply_at stage w (fault f) = stop w stage f

-- `jobs.update`
abbrev pub on_jobs : (List JobRow → List JobRow) → Db → Db
on_jobs f db = record db { jobs = f db.jobs }

-- The pairs of ids that `update_parents` is given.
abbrev pub parent_pairs : List String → List String → List Built → List (String × String)
parent_pairs ids (id ∷ rest) (b ∷ bs) =
    let later = parent_pairs ids rest bs in
    elim b.parent_offset [
      | none ↦ later
      | some p ↦ elim (get_elem? ids p) [ none ↦ later | some parent ↦ (id, parent) ∷ later ]
    ]
parent_pairs ids _ _ = []

-- What the stage CHUNK leaves for the later ones.
pub record Chunked : Type 0 where
  pub ids : List String
  pub rows : List Chunk
  pub children : List SemanticChunk

module _ {Vector Points : Type 0} (services : Services Vector Points) (settings : PipelineSettings)
    (now : ℕ) where
  -- The statements before the stage PARSE.
  unfoldable pub mark_started : String → String → ℕ → World Points → World Points
  unfolding update update_status
  mark_started job_id document_id attempt w =
      let change = record no_change { stage = some "PARSE"; attempt_count = some attempt } in
      commit (
        execute
          (λ db.
            update_status document_id processing none none now
              (on_jobs (update job_id running change now) db))
          w)

  -- The stage METADATA.
  unfoldable pub metadata_stage :
      DocumentRow → Parser → Text → DocumentAst → World Points → Step Points ResolvedMetadata
  unfolding resolve_metadata update_metadata update_processing
  metadata_stage document parser fingerprint ast w =
      elim (resolve_metadata services.string_ops ast.explicit ast.front_matter none) [
        | conflict fields ↦ stop w in_metadata (
            ingestion_error (code_value metadata_conflict) (services.conflict_message fields)
              "METADATA")
        | resolved m ↦
            go
              (execute
                (λ db.
                  update_processing document.id parser.version services.chunker_version
                    services.model_name services.model_version fingerprint now
                    (update_metadata document.id (title_of m.title ast.title document.title)
                      m.doc_class m.source m.product m.version now db))
                w)
              m
      ]

  -- The stage SECTION: the ids of the sections by path, and their number.
  unfoldable pub section_stage :
      String → List AstBlock → World Points → Step Points (Dict (List Text) String × ℕ)
  unfolding build_sections delete_sections create_sections update_parents
  section_stage document_id blocks w =
      let built = build_sections blocks document_id in
      elim (delete_sections document_id w.session) [
        | none ↦ stop w in_section (other_error "a chunk still refers to a section")
        | some db ↦
            let (created, ids) = create_sections services.new_id (map (λ b. b.section) built) db in
            let parented = update_parents (parent_pairs ids ids built) created in
            elim (zip_strict (map (λ b. b.path) built) ids) [
              | none ↦ stop w in_section (other_error "zip() argument 2 is shorter or longer")
              | some pairs ↦ go (record w { session = parented }) (dict_of [] pairs, length built)
            ]
      ]

  -- The nodes that the chunker gives.
  abbrev pub nodes_of : List AstBlock → Reply (List ParentChunkNode)
  nodes_of blocks =
      if settings.context_expand_to_parent
      then services.chunk_with_parents blocks settings.parent_chunk_tokens
      else elim (services.chunk blocks) [
        | fault f ↦ fault f
        | done chunks ↦ done (map (λ sc. record { parent = none; child = sc }) chunks)
      ]

  -- The rows of the stage CHUNK, parents first, up to its commit.
  unfoldable pub store_chunks : Scope → List ParentChunkNode → World Points → Step Points Chunked
  unfolding ordinals create_chunks
  store_chunks scope nodes w =
      let (parents, parent_of_node) = ordinals services.identity [] [] nodes in
      let (with_parents, parent_ids) =
        create_chunks services.new_id (parent_rows scope (enumerate 0 parents)) w.session in
      let children = map (λ n. n.child) nodes in
      let rows =
        child_rows scope services.model_name services.model_version parent_ids (length parents)
          children parent_of_node in
      let (with_children, ids) = create_chunks services.new_id rows with_parents in
      go (commit (record w { session = with_children }))
        (record { ids = ids; rows = rows; children = children })

  -- The stage CHUNK.
  unfoldable pub chunk_stage : Scope → List AstBlock → World Points → Step Points Chunked
  unfolding delete_chunks store_chunks
  chunk_stage scope blocks w =
      let (db, old_ids) = delete_chunks scope.document_id w.session in
      let (points, deleted) = services.delete old_ids w.points in
      and_then (reply_at in_chunk (record w { session = db; points = points }) deleted) (λ w _.
        and_then (reply_at in_chunk w (nodes_of blocks)) (λ w nodes. store_chunks scope nodes w))

  -- The stage EMBEDDING.
  unfoldable pub embedding_stage :
      String → Scope → String → Chunked → World Points → Step Points (List Vector)
  unfolding update
  embedding_stage job_id scope title chunked w =
      let change = record no_change { stage = some "EMBEDDING" } in
      reply_at in_embedding (commit (execute (on_jobs (update job_id running change now)) w)) (
        services.embed_documents
          (map (embedding_text title scope.product scope.version) chunked.children))

  -- The stage VECTOR_INDEX.
  unfoldable pub vector_stage :
      Scope → Option String → Chunked → List Vector → World Points → Step Points Unit
  vector_stage scope doc_class chunked vectors w =
      elim (points_of scope doc_class chunked.ids chunked.rows vectors) [
        | none ↦ stop w in_vector_index (other_error "zip() argument 3 is shorter or longer")
        | some new_points ↦
            let (points, reply) = services.upsert new_points w.points in
            reply_at in_vector_index (record w { points = points }) reply
      ]

  -- The statements after the last stage, and the result.
  unfoldable pub mark_done :
      String → String → ℕ → ℕ → ℕ → World Points → Step Points IngestionResult
  unfolding update update_status
  mark_done job_id document_id sections chunks vectors w =
      let change = record no_change {
        stage = some "DONE";
        section_count = some sections;
        chunk_count = some chunks;
        embedding_count = some vectors;
      } in
      go
        (commit (
          execute
            (λ db.
              update_status document_id ready none none now
                (on_jobs (update job_id succeeded change now) db))
            w))
        (record {
          section_count = sections;
          chunk_count = chunks;
          embedding_count = vectors;
          skipped = false;
        })

  -- The stages from CHUNK on.
  unfoldable pub index_stages :
      String
      → Scope
      → String
      → Option String
      → ℕ
      → List AstBlock
      → World Points
      → Step Points IngestionResult
  unfolding chunk_stage embedding_stage vector_stage mark_done
  index_stages job_id scope title doc_class sections blocks w =
      and_then (chunk_stage scope blocks w) (λ w chunked.
        and_then (embedding_stage job_id scope title chunked w) (λ w vectors.
          and_then (vector_stage scope doc_class chunked vectors w) (λ w _.
            mark_done job_id scope.document_id sections (length chunked.rows) (length vectors) w)))

  abbrev pub scope_of : DocumentRow → ResolvedMetadata → Dict (List Text) String → Scope
  scope_of document m by_path = record {
    document_id = document.id;
    knowledge_base_id = document.knowledge_base_id;
    product = m.product;
    version = m.version;
    by_path = by_path;
  }

  -- The stages from PARSE on.
  unfoldable pub run_stages :
      String → DocumentRow → Parser → Text → World Points → Step Points IngestionResult
  unfolding metadata_stage section_stage index_stages
  run_stages job_id document parser fingerprint w =
      and_then (reply_at in_parse w (parser.parse document.content)) (λ w ast.
        and_then (metadata_stage document parser fingerprint ast w) (λ w m.
          and_then (section_stage document.id ast.blocks w) (λ w (by_path, sections).
            index_stages job_id (scope_of document m by_path)
              (title_of m.title ast.title document.title) m.doc_class sections ast.blocks w)))

  -- A document that is READY under the same fingerprint: the job succeeds with the counts there are.
  unfoldable pub skip_job : String → String → World Points → Step Points IngestionResult
  unfolding update
  skip_job job_id document_id w =
      let children = count_chunks document_id true w.session in
      let sections = count_sections document_id w.session in
      let change = record no_change {
        stage = some "HASH";
        section_count = some sections;
        chunk_count = some children;
        embedding_count = some children;
      } in
      go (commit (execute (on_jobs (update job_id succeeded change now)) w)) (record {
        section_count = sections;
        chunk_count = children;
        embedding_count = children;
        skipped = true;
      })

  abbrev pub is_unchanged : DocumentRow → Text → Bool
  is_unchanged document fingerprint =
      is_ready document.status && document.processing_fingerprint == some fingerprint

  abbrev pub parser_of : DocumentRow → Parser
  parser_of document = services.select_parser document.content document.title

  abbrev pub fingerprint_of : DocumentRow → Text
  fingerprint_of document =
      processing_fingerprint services.sha256 document.content_hash (parser_of document).version
        services.chunker_version services.model_version

  -- The body of `process` once the document is found.
  unfoldable pub process_document :
      String → DocumentRow → ℕ → World Points → Step Points IngestionResult
  unfolding run_stages skip_job mark_started
  process_document job_id document attempt w =
      let skipped = skip_job job_id document.id w in
      let processed =
        run_stages job_id document (parser_of document) (fingerprint_of document)
          (mark_started job_id document.id attempt w) in
      if is_unchanged document (fingerprint_of document) then skipped else processed

  -- `attempt < max_attempts and code not in _TERMINAL_ERROR_CODES`
  abbrev pub may_retry : String → ℕ → Bool
  may_retry code attempt = ltb attempt settings.max_attempts && not (elem code terminal_error_codes)

  -- `_handle_failure`, on the committed tables.
  unfoldable pub handle_failure : String → String → String → String → ℕ → Db → Db
  unfolding get_job update requeue update_status
  handle_failure job_id code message stage attempt db = elim (get_job job_id db) [
    | none ↦ db
    | some job ↦
        let change = record no_change {
          stage = some stage;
          error_code = some code;
          error_message = some message;
        } in
        let status = if code == code_value metadata_conflict then document_conflict else failed in
        if may_retry code attempt
        then on_jobs (requeue job_id (now + settings.retry_backoff * attempt)) db
        else update_status job.document_id status (some code) (some message) now
            (on_jobs (update job_id job_failed change now) db)
  ]

  -- The two `except` clauses.
  unfoldable pub conclude : String → ℕ → Step Points IngestionResult → Processed Points
  unfolding handle_failure
  conclude job_id attempt (go w result) = record {
    db = w.committed;
    points = w.points;
    reply = done result;
  }
  conclude job_id attempt (stop w stage (ingestion_error code message failed_at)) = record {
    db = handle_failure job_id code message failed_at attempt w.committed;
    points = w.points;
    reply = fault (ingestion_error code message failed_at);
  }
  conclude job_id attempt (stop w stage (other_error message)) =
      let code = code_value (stage_error_code stage) in
      record {
        db = handle_failure job_id code message (stage_name stage) attempt w.committed;
        points = w.points;
        reply = fault (ingestion_error code message (stage_name stage));
      }

  -- `IngestionPipeline.process`; the messages of rows that are not found are shortened.
  unfoldable pub process : String → Db → Points → Processed Points
  unfolding conclude process_document get_job get_document
  process job_id db points =
      let w : World Points = record { session = db; committed = db; points = points } in
      let not_found =
        conclude job_id 1
          (stop w in_db (ingestion_error (code_value database_failed) "not found" "DB")) in
      elim (get_job job_id db) [
        | none ↦ not_found
        | some job ↦ elim (get_document job.document_id db) [
          | none ↦ not_found
          | some document ↦
              let attempt = suc job.attempt_count in
              conclude job_id attempt (process_document job_id document attempt w)
        ]
      ]
