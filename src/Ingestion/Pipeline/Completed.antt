-- ===== src/Ingestion/Pipeline/Completed.antt =====
-- The stages of `process` as a whole: what they leave when none raises.
use lrllm.Prelude.{ℕ, refl, String, Text, Option, List, string_eq}
use lrllm.Ingestion.Semantic.{AstBlock}
use lrllm.Ingestion.Store.{DocumentRow}
use lrllm.Ingestion.ChunkRows.{Scope}
use lrllm.Ingestion.Services.{in_parse, Parser, Services, PipelineSettings, title_of}
use lrllm.Ingestion.Pipeline.{
  World, reply_at, run_stages, scope_of, index_stages, metadata_stage, section_stage, chunk_stage,
  embedding_stage, vector_stage,
}
use lrllm.Ingestion.Pipeline.Kept.{Ends, and_then-Ends}
use lrllm.Ingestion.Pipeline.Running.{
  Live, Halted, reply_at-Ends, metadata_stage-Live, section_stage-Live,
}
use lrllm.Ingestion.Pipeline.Fresh.{Fresh, Ends-both, metadata_stage-Fresh, section_stage-Fresh}
use lrllm.Ingestion.Pipeline.Indexed.{
  IsDone, IsFiled, IsStored, IsIndexed, chunk_stage-IsStored, embedding_stage-IsStored,
  vector_stage-IsIndexed, mark_done-IsDone,
}

module _ (job_id : String) (attempt : ℕ) {Vector Points : Type 0}
    (services : Services Vector Points) (settings : PipelineSettings) (now : ℕ) where
  module _ (old_ids : List String) (start : Points) where
    -- What a run has left up to the stage CHUNK.
    abbrev pub IsBegun : String → World Points → Type 0
    IsBegun id w = Live job_id id attempt w × Fresh id old_ids start w

    index_stages-IsDone :
        (scope : Scope) (title : String) (doc_class : Option String) (sections : ℕ)
        (blocks : List AstBlock) (w : World Points)
        → IsBegun scope.document_id w
        → Ends
            (IsDone job_id scope.document_id attempt services old_ids start)
            (Halted job_id scope.document_id attempt)
            (index_stages services settings now job_id scope title doc_class sections blocks w)
    unfolding index_stages
    index_stages-IsDone scope title doc_class sections blocks w begun =
        let id = scope.document_id in
        let Out = Halted job_id id attempt {Points = Points} in
        let Good = IsDone job_id id attempt services old_ids start in
        let Stored = IsStored job_id scope attempt services settings now old_ids start in
        and_then-Ends Stored Good Out (chunk_stage services settings now scope blocks w) _
          (chunk_stage-IsStored job_id scope attempt services settings now old_ids start blocks w
            begun.0 begun.1)
          (λ w chunked stored.
            and_then-Ends (λ w _. Stored w chunked) Good Out
              (embedding_stage services settings now job_id scope title chunked w) _
              (embedding_stage-IsStored job_id scope attempt services settings now old_ids start
                title chunked w stored)
              (λ w vectors stored.
                and_then-Ends
                  (λ w _.
                    IsFiled job_id scope attempt services settings now old_ids start w chunked
                    × IsIndexed job_id id attempt services old_ids start chunked.ids w)
                  Good Out (vector_stage services settings now scope doc_class chunked vectors w) _
                  (vector_stage-IsIndexed job_id scope attempt services settings now old_ids start
                    doc_class chunked vectors w stored)
                  (λ w _ h.
                    mark_done-IsDone job_id scope attempt services settings now old_ids start
                      sections chunked vectors w h.0 h.1)))

    pub run_stages-IsDone :
        (document : DocumentRow) (parser : Parser) (fingerprint : Text) (w : World Points)
        → IsBegun document.id w
        → Ends
            (IsDone job_id document.id attempt services old_ids start)
            (Halted job_id document.id attempt)
            (run_stages services settings now job_id document parser fingerprint w)
    unfolding run_stages
    run_stages-IsDone document parser fingerprint w begun =
        let id = document.id in
        let Out = Halted job_id id attempt {Points = Points} in
        let Good = IsDone job_id id attempt services old_ids start in
        and_then-Ends (λ w _. IsBegun id w) Good Out
          (reply_at in_parse w (parser.parse document.content)) _
          (reply_at-Ends job_id id attempt (λ w _. IsBegun id w) in_parse w
            (parser.parse document.content) (λ a e. begun) begun.0.1)
          (λ w ast begun.
            let s = metadata_stage services settings now document parser fingerprint ast w in
            and_then-Ends (λ w _. IsBegun id w) Good Out s _
              (Ends-both _ _ _ s
                (metadata_stage-Live job_id id attempt services settings now document parser
                  fingerprint ast w refl begun.0)
                (metadata_stage-Fresh id old_ids start services settings now document parser
                  fingerprint ast w begun.1))
              (λ w m begun.
                let s = section_stage services settings now id ast.blocks w in
                and_then-Ends (λ w _. IsBegun id w) Good Out s _
                  (Ends-both _ _ _ s
                    (section_stage-Live job_id id attempt services settings now id ast.blocks w
                      begun.0)
                    (section_stage-Fresh id old_ids start services settings now id ast.blocks w
                      begun.1))
                  (λ w filed begun.
                    index_stages-IsDone (scope_of services settings now document m filed.0)
                      (title_of m.title ast.title document.title) m.doc_class filed.1 ast.blocks w
                      begun)))
