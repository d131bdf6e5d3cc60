-- ===== src/Ingestion/Pipeline/Indexed.antt =====
-- What the stages from CHUNK on leave: the chunks in the table, and the points made of them.
use lrllm.Prelude.{
  ℕ, zero, suc, ◌≡◌, refl, sym, subst, ap, ap₂, ◌∙◌, false, String, Option, some, List, [], map,
  length, Option-cases, inl, inr, length-map,
}
use lrllm.Jobs.Table.{succeeded, running as working, update, updated, no_change}
use lrllm.Ingestion.Semantic.{AstBlock, ParentChunkNode}
use lrllm.Ingestion.Store.{
  ready, processing, Db, delete_chunks, create_chunks, next_ids, update_status, where_document,
}
use lrllm.Ingestion.ChunkRows.{
  Scope, ordinals, enumerate, parent_rows, child_rows, VectorPoint, points_of, embedding_text,
}
use lrllm.Ingestion.Services.{
  in_chunk, in_embedding, in_vector_index, done, Services, PipelineSettings, IngestionResult,
}
use lrllm.Ingestion.Pipeline.{
  World, commit, execute, reply_at, on_jobs, Chunked, nodes_of, store_chunks, chunk_stage,
  embedding_stage, vector_stage, mark_done,
}
use lrllm.Ingestion.Pipeline.Kept.{
  JobAt, DocumentAt, JobAt-where_id, DocumentAt-where, JobAt-where_document, DocumentAt-on_jobs,
  Ends, and_then-Ends,
}
use lrllm.Ingestion.Pipeline.Running.{Live, Halted, reply_at-Ends, Running-same, Running-stage}
use lrllm.Ingestion.Pipeline.Fresh.{Fresh}
use lrllm.Ingestion.Pipeline.Stored.{
  children_of, embedded, create_chunks-children, delete_chunks-none, IdsAre, points_of-IdsAre,
}

length-next_ids : (new_id : ℕ → String) (given n : ℕ) → length (next_ids new_id given n) ≡ n
length-next_ids new_id given zero = refl
length-next_ids new_id given (suc n) = ap suc (length-next_ids new_id (suc given) n)

module _ (job_id document_id : String) (attempt : ℕ) {Vector Points : Type 0}
    (services : Services Vector Points) where
  -- The points are those of the start, without the points of the old ids, and with those that the
  -- vector store took for the new ids.
  abbrev pub IsIndexed : List String → Points → List String → World Points → Type 0
  IsIndexed old_ids start ids w =
      (ps : List (VectorPoint Vector)) × (left : Points) × (services.delete old_ids start
        ≡ (left, done tt))
      × (services.upsert ps left ≡ (w.points, done tt))
      × (map (λ p. p.chunk_id) ps ≡ ids)

  -- The job and the document as `process` leaves them after its last stage.
  abbrev pub IsDone : List String → Points → World Points → IngestionResult → Type 0
  IsDone old_ids start w r =
      JobAt
        (λ j.
          (j.status ≡ succeeded)
          × (j.attempt_count ≡ attempt)
          × (j.chunk_count ≡ some r.chunk_count)
          × (j.embedding_count ≡ some r.embedding_count))
        job_id w.committed
      × DocumentAt (λ d. d.status ≡ ready) document_id w.committed
      × IsIndexed old_ids start (map (λ c. c.id) (children_of document_id w.committed)) w
      × (length (children_of document_id w.committed) ≡ r.chunk_count)
      × (r.skipped ≡ false)

module _ (job_id : String) (scope : Scope) (attempt : ℕ) {Vector Points : Type 0}
    (services : Services Vector Points) (settings : PipelineSettings) (now : ℕ)
    (old_ids : List String) (start : Points) where
  -- The ids are those of the chunks of the document that are embedded.
  abbrev pub AreIds : List String → Db → Type 0
  AreIds ids db = map (λ c. c.id) (children_of scope.document_id db) ≡ ids

  -- The points of the chunks that were there are gone.
  abbrev pub IsCleared : World Points → Type 0
  IsCleared w = services.delete old_ids start ≡ (w.points, done tt)

  abbrev pub IsFiled : World Points → Chunked → Type 0
  IsFiled w chunked =
      Live job_id scope.document_id attempt w
      × AreIds chunked.ids w.session
      × AreIds chunked.ids w.committed
      × (length chunked.ids ≡ length chunked.rows)

  abbrev pub IsStored : World Points → Chunked → Type 0
  IsStored w chunked = IsFiled w chunked × IsCleared w

  -- No chunk of the document is left, and no point of one.
  abbrev IsEmptied : World Points → Type 0
  IsEmptied w =
      Live job_id scope.document_id attempt w
      × (embedded scope.document_id w.session.chunks ≡ [])
      × IsCleared w

  store_chunks-IsStored :
      (nodes : List ParentChunkNode) (w : World Points)
      → Live job_id scope.document_id attempt w
      → embedded scope.document_id w.session.chunks ≡ []
      → IsCleared w
      → Ends IsStored
          (Halted job_id scope.document_id attempt)
          (store_chunks services settings now scope nodes w)
  unfolding store_chunks create_chunks
  store_chunks-IsStored nodes w live gone cleared =
      let (parents, parent_of_node) = ordinals services.identity [] [] nodes in
      let entries = enumerate 0 parents in
      let (with_parents, parent_ids) =
        create_chunks services.new_id (parent_rows scope entries) w.session in
      let rows =
        child_rows scope services.model_name services.model_version parent_ids (length parents)
          (map (λ n. n.child) nodes) parent_of_node in
      let after = (create_chunks services.new_id rows with_parents).0 in
      let stored =
        create_chunks-children services.new_id scope w.session entries services.model_name
          services.model_version (length parents) (map (λ n. n.child) nodes) parent_of_node gone in
      let kept = Running-same job_id scope.document_id attempt w.session after refl refl live.0 in
      let filed = length-next_ids services.new_id with_parents.ids_given (length rows) in
      (((kept, kept), stored, stored, filed), cleared)

  pub chunk_stage-IsStored :
      (blocks : List AstBlock) (w : World Points)
      → Live job_id scope.document_id attempt w
      → Fresh scope.document_id old_ids start w
      → Ends IsStored
          (Halted job_id scope.document_id attempt)
          (chunk_stage services settings now scope blocks w)
  unfolding chunk_stage delete_chunks
  chunk_stage-IsStored blocks w live fresh =
      let d = scope.document_id in
      let (db, old) = delete_chunks d w.session in
      let (points, deleted) = services.delete old w.points in
      let w1 : World Points = record w { session = db; points = points } in
      let live1 : Live job_id d attempt w1 =
        (Running-same job_id d attempt w.session db refl refl live.0, live.1) in
      let gone = delete_chunks-none d w.session in
      let same : services.delete old_ids start ≡ (points, deleted) =
        sym (ap₂ (λ ids p. services.delete ids p) fresh.0 fresh.1) in
      and_then-Ends (λ w _. IsEmptied w) IsStored (Halted job_id d attempt)
        (reply_at in_chunk w1 deleted) _
        (reply_at-Ends job_id d attempt (λ w _. IsEmptied w) in_chunk w1 deleted
          (λ a e. (live1, gone, same ∙ ap (λ q. (points, q)) e)) live.1)
        (λ w2 a h.
          and_then-Ends (λ w _. IsEmptied w) IsStored (Halted job_id d attempt)
            (reply_at in_chunk w2 (nodes_of services settings now blocks)) _
            (reply_at-Ends job_id d attempt (λ w _. IsEmptied w) in_chunk w2
              (nodes_of services settings now blocks) (λ a e. h) h.0.1)
            (λ w3 nodes k. store_chunks-IsStored nodes w3 k.0 k.1 k.2))

  pub embedding_stage-IsStored :
      (title : String) (chunked : Chunked) (w : World Points)
      → IsStored w chunked
      → Ends
          (λ w _. IsStored w chunked)
          (Halted job_id scope.document_id attempt)
          (embedding_stage services settings now job_id scope title chunked w)
  unfolding embedding_stage
  embedding_stage-IsStored title chunked w h =
      let running =
        Running-stage job_id scope.document_id attempt "EMBEDDING" now w.session h.0.0.0 in
      let change = record no_change { stage = some "EMBEDDING" } in
      reply_at-Ends job_id scope.document_id attempt (λ w _. IsStored w chunked) in_embedding
        (commit (execute (on_jobs (update job_id working change now)) w))
        (services.embed_documents
          (map (embedding_text title scope.product scope.version) chunked.children))
        (λ a e. (((running, running), h.0.1, h.0.1, h.0.3), h.1)) running

  abbrev Indexed : List String → World Points → Type 0
  Indexed = IsIndexed job_id scope.document_id attempt services old_ids start

  pub vector_stage-IsIndexed :
      (doc_class : Option String) (chunked : Chunked) (vectors : List Vector) (w : World Points)
      → IsStored w chunked
      → Ends
          (λ w _. IsFiled w chunked × Indexed chunked.ids w)
          (Halted job_id scope.document_id attempt)
          (vector_stage services settings now scope doc_class chunked vectors w)
  unfolding vector_stage
  vector_stage-IsIndexed doc_class chunked vectors w h =
      let ids = points_of-IdsAre scope doc_class chunked.ids chunked.rows vectors in
      elim (Option-cases (points_of scope doc_class chunked.ids chunked.rows vectors)) [
        | inl e ↦ rw (e, vector_stage) (h.0.0.1)
        | inr (ps, e) ↦
            let (points, reply) = services.upsert ps w.points in
            let same : map (λ p. p.chunk_id) ps ≡ chunked.ids = subst (IdsAre chunked.ids) e ids in
            rw (e, vector_stage)
              (reply_at-Ends job_id scope.document_id attempt _ in_vector_index _ reply
                (λ a r. (h.0, (ps, w.points, h.1, ap (λ q. (points, q)) r, same))) h.0.0.1)
      ]

  pub mark_done-IsDone :
      (sections : ℕ) (chunked : Chunked) (vectors : List Vector) (w : World Points)
      → IsFiled w chunked
      → Indexed chunked.ids w
      → Ends
          (IsDone job_id scope.document_id attempt services old_ids start)
          (Halted job_id scope.document_id attempt)
          (mark_done services settings now job_id scope.document_id sections
            (length chunked.rows)
            (length vectors)
            w)
  unfolding mark_done update updated update_status where_document
  mark_done-IsDone sections chunked vectors w stored indexed =
      let change = record no_change {
        stage = some "DONE";
        section_count = some sections;
        chunk_count = some (length chunked.rows);
        embedding_count = some (length vectors);
      } in
      let (job, document) = stored.0.0 in
      let finished =
        JobAt-where_id
          {Q = λ j.
            (j.status ≡ succeeded)
            × (j.attempt_count ≡ attempt)
            × (j.chunk_count ≡ some (length chunked.rows))
            × (j.embedding_count ≡ some (length vectors))}
          job_id (updated succeeded change now) w.session (λ x. refl)
          (λ x p. (refl, p.1, refl, refl)) job in
      let count : length (children_of scope.document_id w.session) ≡ length chunked.rows =
        sym (length-map (children_of scope.document_id w.session) (λ c. c.id))
        ∙ ap length stored.1
        ∙ stored.3 in
      (
        JobAt-where_document job_id scope.document_id _ _ finished,
        DocumentAt-where {P = λ d. d.status ≡ processing} scope.document_id _ _ (λ x. refl)
            (λ x. refl) (λ x p. refl)
            (DocumentAt-on_jobs scope.document_id (update job_id succeeded change now) w.session
              document),
        subst (λ ids. Indexed ids w) (sym stored.1) indexed,
        count,
        refl,
      )
