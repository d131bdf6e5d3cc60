-- ===== src/Cleanup/Purge.antt =====
-- app/services/cleanup_service.py: `_purge_chunks` and `_purge_documents`, with the statements of
-- app/storage/postgres/repositories/document.py and chunk.py that mark and remove rows. A delete
-- follows the foreign keys that say ON DELETE CASCADE: a chunk goes with its parent, and all rows of
-- a document go with it. The vector store is the list of its points' ids.
pub mod Chunkless
use lrllm.Prelude.{
  ℕ, Bool, true, false, not, ◌&&◌, String, Option, none, some, List, [], ◌∷◌, map, select, take,
  length, elem, ◌==◌, string_eq, if◌then◌else◌,
}
use lrllm.Ingestion.Store.{DocumentRow, StoredChunk, Db, is_live, any_of, where_document}

-- `ChunkRepository.soft_delete_by_document`
unfoldable pub soft_delete_chunks : String → ℕ → Db → Db
soft_delete_chunks id now db = record db {
  chunks =
      map (λ c. if c.chunk.document_id == id then record c { deleted_at = some now } else c)
        db.chunks;
}

-- `ChunkRepository.soft_delete_by_kb`
unfoldable pub soft_delete_chunks_by_kb : String → ℕ → Db → Db
soft_delete_chunks_by_kb kb now db = record db {
  chunks =
      map
        (λ c.
          if c.chunk.knowledge_base_id == kb && is_live c.deleted_at
          then record c { deleted_at = some now }
          else c)
        db.chunks;
}

-- `DocumentRepository.soft_delete`
unfoldable pub soft_delete_document : String → ℕ → Db → Db
unfolding where_document
soft_delete_document id now = where_document id (λ d. record d { deleted_at = some now })

-- `DocumentRepository.soft_delete_by_kb`
unfoldable pub soft_delete_documents_by_kb : String → ℕ → Db → Db
soft_delete_documents_by_kb kb now db = record db {
  documents =
      map
        (λ d.
          if d.knowledge_base_id == kb && is_live d.deleted_at
          then record d { deleted_at = some now }
          else d)
        db.documents;
}

-- `ChunkRepository.list_ids_by_document`
unfoldable pub list_chunk_ids : String → Db → List String
list_chunk_ids id db =
    map (λ c. c.id) (select (λ c. c.chunk.document_id == id && is_live c.deleted_at) db.chunks)

-- `ChunkRepository.list_deleted_ids`
unfoldable pub list_deleted_ids : ℕ → Db → List String
list_deleted_ids limit db =
    take limit (map (λ c. c.id) (select (λ c. not (is_live c.deleted_at)) db.chunks))

abbrev pub names_parent : List String → StoredChunk → Bool
names_parent ids c = elim c.chunk.parent_chunk_id [ none ↦ false | some p ↦ elem p ids ]

-- `ChunkRepository.hard_delete_ids`: the rows, and with them those whose parent is among them; a
-- parent has no parent.
unfoldable pub hard_delete_chunks : List String → Db → Db
hard_delete_chunks ids db = record db {
  chunks = select (λ c. not (elem c.id ids) && not (names_parent ids c)) db.chunks;
}

-- Whether a chunk of a document is in the table.
abbrev pub has_chunk : Db → String → Bool
has_chunk db id = any_of (λ c. c.chunk.document_id == id) db.chunks

-- `DocumentRepository.list_purgeable_ids`
unfoldable pub list_purgeable_ids : ℕ → Db → List String
list_purgeable_ids limit db = take limit (
    map (λ d. d.id)
      (select (λ d. not (is_live d.deleted_at) && not (has_chunk db d.id)) db.documents))

-- `DocumentRepository.hard_delete_ids`, with the rows that refer to the documents.
unfoldable pub hard_delete_documents : List String → Db → Db
hard_delete_documents ids db = record db {
  jobs = select (λ j. not (elem j.document_id ids)) db.jobs;
  documents = select (λ d. not (elem d.id ids)) db.documents;
  sections = select (λ s. not (elem s.section.document_id ids)) db.sections;
  chunks = select (λ c. not (elem c.chunk.document_id ids)) db.chunks;
}

-- `_purge_chunks`: the tables, the points and the number of chunks; none if the vector store raises,
-- which it does before a row is removed.
unfoldable pub purge_chunks : ℕ → Bool → Db → List String → Option (Db × List String × ℕ)
unfolding list_deleted_ids hard_delete_chunks
purge_chunks batch store_fails db points = elim (list_deleted_ids batch db) [
  | [] ↦ some (db, points, 0)
  | id ∷ ids ↦
      if store_fails
      then none
      else some (
        hard_delete_chunks (id ∷ ids) db,
        select (λ p. not (elem p (id ∷ ids))) points,
        length (id ∷ ids),
      )
]

-- `_purge_documents`
unfoldable pub purge_documents : ℕ → Db → Db × ℕ
unfolding list_purgeable_ids hard_delete_documents
purge_documents batch db = elim (list_purgeable_ids batch db) [
  | [] ↦ (db, 0)
  | id ∷ ids ↦ (hard_delete_documents (id ∷ ids) db, length (id ∷ ids))
]
