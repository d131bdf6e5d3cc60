-- ===== src/Ingestion/Store.antt =====
-- The rows of documents, sections and chunks (app/storage/postgres/orm.py) and the statements on
-- them (app/storage/postgres/repositories/document.py, section.py and chunk.py). The database gives
-- each new row the next of its ids. Of the foreign keys, the one of a chunk to its section matters
-- to these statements: it has no ON DELETE, so that a delete of a section that a chunk names fails.
use lrllm.Prelude.{
  ℕ, zero, suc, ◌+◌, Bool, true, false, not, ◌&&◌, ◌||◌, String, Text, Option, none, some, List, [],
  ◌∷◌, ◌++◌, map, select, length, elem, ◌==◌, string_eq, option_eq, if◌then◌else◌, dict_get,
}
use lrllm.Jobs.Table.{JobRow}
use lrllm.Ingestion.Semantic.{ChunkType}
use lrllm.Ingestion.Sections.{Section}

-- `DocumentStatus`
pub data DocumentStatus : Type 0 where
  pending processing ready failed conflict : DocumentStatus

abbrev pub is_ready : DocumentStatus → Bool
is_ready ready = true
is_ready _ = false

-- `DocumentRow`, less the columns of the wiki and the creation time.
pub record DocumentRow : Type 0 where
  pub id : String
  pub knowledge_base_id : String
  pub title : String
  pub doc_class : Option String
  pub source : Option String
  pub product : Option String
  pub version : Option String
  pub content : Text
  pub content_hash : String
  pub parser_version : Option String
  pub chunker_version : Option String
  pub embedding_model : Option String
  pub embedding_model_version : Option String
  pub processing_fingerprint : Option Text
  pub status : DocumentStatus
  pub error_code : Option String
  pub error_message : Option String
  pub updated_at : ℕ
  pub deleted_at : Option ℕ

-- `Chunk`, before the database gives an id; the hash of its text is left out.
pub record Chunk : Type 0 where
  pub document_id : String
  pub section_id : Option String
  pub knowledge_base_id : String
  pub text : Text
  pub raw_content : Option Text
  pub heading_path : Text
  pub line_start : ℕ
  pub line_end : ℕ
  pub chunk_index : ℕ
  pub token_count : ℕ
  pub chunk_type : ChunkType
  pub is_parent : Bool
  pub parent_chunk_id : Option String
  pub product : Option String
  pub version : Option String
  pub embedding_model : Option String
  pub embedding_model_version : Option String

-- `SectionRow`
pub record SectionRow : Type 0 where
  pub id : String
  pub parent_section_id : Option String
  pub section : Section

-- A row of the table of chunks.
pub record StoredChunk : Type 0 where
  pub id : String
  pub chunk : Chunk
  pub deleted_at : Option ℕ

-- The tables that the ingestion uses, and the number of ids given so far.
pub record Db : Type 0 where
  pub jobs : List JobRow
  pub documents : List DocumentRow
  pub sections : List SectionRow
  pub chunks : List StoredChunk
  pub ids_given : ℕ

-- `deleted_at IS NULL`
abbrev pub is_live : Option ℕ → Bool
is_live none = true
is_live (some t) = false

abbrev pub first_of {ℓ} : {A : Type ℓ} → List A → Option A
first_of [] = none
first_of (x ∷ xs) = some x

-- `IngestionJobRepository.get`
unfoldable pub get_job : String → Db → Option JobRow
get_job id db = first_of (select (λ r. r.id == id) db.jobs)

-- `DocumentRepository.get`
unfoldable pub get_document : String → Db → Option DocumentRow
get_document id db = first_of (select (λ d. d.id == id && is_live d.deleted_at) db.documents)

-- `UPDATE documents ... WHERE id = ...`
unfoldable pub where_document : String → (DocumentRow → DocumentRow) → Db → Db
where_document id f db = record db {
  documents = map (λ d. if d.id == id then f d else d) db.documents;
}

-- `DocumentRepository.update_status`
unfoldable pub update_status : String → DocumentStatus → Option String → Option String → ℕ → Db → Db
unfolding where_document
update_status id status code message now = where_document id (λ d. record d {
  status = status;
  error_code = code;
  error_message = message;
  updated_at = now;
})

-- `DocumentRepository.update_metadata`
unfoldable pub update_metadata :
    String → String → Option String → Option String → Option String → Option String → ℕ → Db → Db
unfolding where_document
update_metadata id title doc_class source product version now = where_document id (λ d. record d {
  title = title;
  doc_class = doc_class;
  source = source;
  product = product;
  version = version;
  updated_at = now;
})

-- `DocumentRepository.update_processing`
unfoldable pub update_processing : String → String → String → String → String → Text → ℕ → Db → Db
unfolding where_document
update_processing id parser_version chunker_version model model_version fingerprint now =
    where_document id (λ d. record d {
      parser_version = some parser_version;
      chunker_version = some chunker_version;
      embedding_model = some model;
      embedding_model_version = some model_version;
      processing_fingerprint = some fingerprint;
      updated_at = now;
    })

-- The rows of a document in `SectionRepository` and `ChunkRepository`.
abbrev pub sections_of : String → Db → List SectionRow
sections_of id db = select (λ s. s.section.document_id == id) db.sections

abbrev pub chunks_of : String → Db → List StoredChunk
chunks_of id db = select (λ c. c.chunk.document_id == id) db.chunks

-- `SectionRepository.count_by_document`
abbrev pub count_sections : String → Db → ℕ
count_sections id db = length (sections_of id db)

-- `ChunkRepository.count_by_document`
abbrev pub count_chunks : String → Bool → Db → ℕ
count_chunks id only_children db = length (
    select (λ c. is_live c.deleted_at && (not only_children || not c.chunk.is_parent))
      (chunks_of id db))

-- Whether a chunk names one of some sections.
abbrev pub names_section : List String → StoredChunk → Bool
names_section ids c = elim c.chunk.section_id [ none ↦ false | some id ↦ elem id ids ]

abbrev pub any_of {ℓ} : {A : Type ℓ} → (A → Bool) → List A → Bool
any_of p [] = false
any_of p (x ∷ xs) = p x || any_of p xs

-- `SectionRepository.delete_by_document`: none if a chunk still names a section of the document,
-- which the database refuses.
unfoldable pub delete_sections : String → Db → Option Db
delete_sections id db =
    if any_of (names_section (map (λ s. s.id) (sections_of id db))) db.chunks
    then none
    else some (record db { sections = select (λ s. not (s.section.document_id == id)) db.sections })

-- `ChunkRepository.delete_by_document`: the table afterwards, and the ids of the rows.
unfoldable pub delete_chunks : String → Db → Db × List String
delete_chunks id db = (
  record db { chunks = select (λ c. not (c.chunk.document_id == id)) db.chunks },
  map (λ c. c.id) (chunks_of id db),
)

module _ (new_id : ℕ → String) where
  -- The ids of the next rows.
  abbrev pub next_ids : ℕ → ℕ → List String
  next_ids given zero = []
  next_ids given (suc n) = new_id given ∷ next_ids (suc given) n

  abbrev section_rows : ℕ → List Section → List SectionRow
  section_rows given [] = []
  section_rows given (s ∷ ss) =
      record { id = new_id given; parent_section_id = none; section = s }
      ∷ section_rows (suc given) ss

  -- `SectionRepository.bulk_create`, of sections without a parent.
  unfoldable pub create_sections : List Section → Db → Db × List String
  create_sections sections db = (
    record db {
      sections = db.sections ++ section_rows db.ids_given sections;
      ids_given = db.ids_given + length sections;
    },
    next_ids db.ids_given (length sections),
  )

  abbrev pub chunk_rows : ℕ → List Chunk → List StoredChunk
  chunk_rows given [] = []
  chunk_rows given (c ∷ cs) =
      record { id = new_id given; chunk = c; deleted_at = none } ∷ chunk_rows (suc given) cs

  -- `ChunkRepository.bulk_create`
  unfoldable pub create_chunks : List Chunk → Db → Db × List String
  create_chunks chunks db = (
    record db {
      chunks = db.chunks ++ chunk_rows db.ids_given chunks;
      ids_given = db.ids_given + length chunks;
    },
    next_ids db.ids_given (length chunks),
  )

-- `SectionRepository.update_parents`; without a pair there is no statement. The first pair of a child
-- counts, as in a CASE.
unfoldable pub update_parents : List (String × String) → Db → Db
unfolding dict_get
update_parents pairs db = record db {
  sections =
      map
        (λ s. elim (dict_get s.id pairs) [
          | none ↦ s
          | some p ↦ record s { parent_section_id = some p }
        ])
        db.sections;
}
