-- ===== src/Ingestion/Pipeline/Fresh.antt =====
-- Up to the stage CHUNK, a run leaves the chunks of its document and the points of the vector store
-- as it found them.
use lrllm.Prelude.{
  ℕ, ◌≡◌, refl, sym, ap, ◌∙◌, String, Text, none, some, List, map, select, not, ◌==◌, string_eq,
  Bool-cases, inl, inr, Option-cases,
}
use lrllm.Ingestion.Metadata.{resolve_metadata}
use lrllm.Ingestion.Semantic.{AstBlock}
use lrllm.Ingestion.Sections.{build_sections}
use lrllm.Ingestion.Store.{
  DocumentRow, Db, chunks_of, delete_sections, any_of, names_section, sections_of, create_sections,
  update_parents, update_metadata, update_processing, update_status, where_document,
}
use lrllm.Ingestion.ChunkRows.{zip_strict}
use lrllm.Ingestion.Services.{Stage, Fault, DocumentAst, Parser, Services, PipelineSettings}
use lrllm.Ingestion.Pipeline.{
  World, Step, go, stop, mark_started, metadata_stage, section_stage, parent_pairs,
}
use lrllm.Ingestion.Pipeline.Kept.{Ends}
use lrllm.Ingestion.Pipeline.Running.{Resolution-cases}

-- Two things that hold at the end of one part.
pub Ends-both :
    {Points A : Type 0} (G H : World Points → A → Type 0)
    (X : World Points → Stage → Fault → Type 0) (s : Step Points A)
    → Ends G X s
    → Ends H (λ w stage f. Unit) s
    → Ends (λ w a. G w a × H w a) X s
Ends-both G H X (go w a) g h = (g, h)
Ends-both G H X (stop w stage f) g h = g

delete_sections-chunks :
    (id : String) (db after : Db) → delete_sections id db ≡ some after → after.chunks ≡ db.chunks
unfolding delete_sections
delete_sections-chunks id db after h =
    elim (Bool-cases (any_of (names_section (map (λ s. s.id) (sections_of id db))) db.chunks)) [
      | inl e ↦ let refused : delete_sections id db ≡ none = rw e refl in cc
      | inr e ↦
          let kept : Db = record db {
            sections = select (λ s. not (s.section.document_id == id)) db.sections;
          } in
          let found : delete_sections id db ≡ some kept = rw e refl in
          let same : kept ≡ after = cc in sym (ap (λ d. d.chunks) same)
    ]

-- The ids of the chunks of a document, parents and children.
abbrev pub chunk_ids : String → Db → List String
chunk_ids id db = map (λ c. c.id) (chunks_of id db)

chunk_ids-same :
    (id : String) (db after : Db) → after.chunks ≡ db.chunks → chunk_ids id after ≡ chunk_ids id db
chunk_ids-same id db after h =
    ap (λ rows. map (λ c. c.id) (select (λ c. c.chunk.document_id == id) rows)) h

module _ (document_id : String) (old_ids : List String) {Points : Type 0} (start : Points) where
  abbrev pub Fresh : World Points → Type 0
  Fresh w = (chunk_ids document_id w.session ≡ old_ids) × (w.points ≡ start)

  module _ {Vector : Type 0} (services : Services Vector Points) (settings : PipelineSettings)
      (now : ℕ) where
    pub mark_started-Fresh :
        (job_id id : String) (attempt : ℕ) (w : World Points)
        → Fresh w
        → Fresh (mark_started services settings now job_id id attempt w)
    unfolding mark_started update_status where_document
    mark_started-Fresh job_id id attempt w h = h

    pub metadata_stage-Fresh :
        (document : DocumentRow) (parser : Parser) (fingerprint : Text) (ast : DocumentAst)
        (w : World Points)
        → Fresh w
        → Ends
            (λ w _. Fresh w)
            (λ w stage f. Unit)
            (metadata_stage services settings now document parser fingerprint ast w)
    unfolding metadata_stage update_metadata update_processing where_document
    metadata_stage-Fresh document parser fingerprint ast w h =
        elim (Resolution-cases
          (resolve_metadata services.string_ops ast.explicit ast.front_matter none)) [
            | inl (fs, r) ↦ rw (r, metadata_stage) tt
            | inr (m, r) ↦ rw (r, metadata_stage) h
          ]

    pub section_stage-Fresh :
        (id : String) (blocks : List AstBlock) (w : World Points)
        → Fresh w
        → Ends
            (λ w _. Fresh w)
            (λ w stage f. Unit)
            (section_stage services settings now id blocks w)
    unfolding section_stage create_sections update_parents
    section_stage-Fresh id blocks w h = elim (Option-cases (delete_sections id w.session)) [
      | inl e ↦ rw (e, section_stage) tt
      | inr (db, e) ↦
          let built = build_sections blocks id in
          let (created, ids) = create_sections services.new_id (map (λ b. b.section) built) db in
          let parented = update_parents (parent_pairs ids ids built) created in
          let kept =
            chunk_ids-same document_id w.session parented
              (delete_sections-chunks id w.session db e) in
          elim (Option-cases (zip_strict (map (λ b. b.path) built) ids)) [
            | inl z ↦ rw (e, section_stage, z) tt
            | inr (pairs, z) ↦ rw (e, section_stage, z) (kept ∙ h.0, h.1)
          ]
    ]
