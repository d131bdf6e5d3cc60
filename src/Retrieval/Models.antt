-- ===== src/Retrieval/Models.antt =====
-- app/domain/retrieval/models.py. A score is a Python float: its type is the parameter `F`.
use lrllm.Prelude.{ℕ, Bool, String, Text, Option, List}

-- `RetrievalSource`
pub data RetrievalSource : Type 0 where
  vector keyword : RetrievalSource

-- `EvidenceStatus`
pub data EvidenceStatus : Type 0 where
  supported partially_supported insufficient contradicted : EvidenceStatus

-- `MetadataFilter`
pub record MetadataFilter : Type 0 where
  pub knowledge_base_id : String
  pub product : Option String
  pub version : Option String
  pub doc_class : Option String
  pub include_wiki : Bool

-- `RetrievalHit`, less its payload, which nothing reads.
pub record RetrievalHit (F : Type 0) : Type 0 where
  pub chunk_id : String
  pub document_id : String
  pub score : F
  pub source : RetrievalSource

-- `RankedChunk`
pub record RankedChunk (F : Type 0) : Type 0 where
  pub chunk_id : String
  pub document_id : String
  pub text : Text
  pub score : F
  pub heading_path : Text
  pub line_start : ℕ
  pub line_end : ℕ
  pub chunk_type : String
  pub raw_content : Option Text
  pub parent_chunk_id : Option String
  pub parent_content : Option Text
  pub product : Option String
  pub version : Option String
  pub sub_query_id : Option String

-- `EvidenceResult`
pub record EvidenceResult : Type 0 where
  pub status : EvidenceStatus
  pub reason : String
  pub supporting_chunk_ids : List String
