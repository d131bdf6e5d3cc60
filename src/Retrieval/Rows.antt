-- ===== src/Retrieval/Rows.antt =====
-- The columns of `ChunkRow` (app/storage/postgres/orm.py) that retrieval reads, and
-- `ChunkRepository.get_many` (app/storage/postgres/repositories/chunk.py) over the table's rows.
use lrllm.Prelude.{ℕ, Bool, not, ◌&&◌, ◌||◌, String, Text, Option, List, elem, select, string_eq}

-- `ChunkRow`
pub record ChunkRow : Type 0 where
  pub id : String
  pub document_id : String
  pub text : Text
  pub raw_content : Option Text
  pub heading_path : Text
  pub line_start : ℕ
  pub line_end : ℕ
  pub chunk_type : String
  pub parent_chunk_id : Option String
  pub product : Option String
  pub version : Option String
  pub deleted : Bool

-- The chunk table, and for each document whether it is READY and not deleted.
pub record ChunkStore : Type 0 where
  pub rows : List ChunkRow
  pub ready : String → Bool

-- `ChunkRepository.get_many`
unfoldable pub get_many : ChunkStore → List String → Bool → List ChunkRow
get_many store ids require_ready =
    select (λ r. elem r.id ids && not r.deleted && (not require_ready || store.ready r.document_id))
      store.rows
