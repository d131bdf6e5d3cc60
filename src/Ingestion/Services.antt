-- ===== src/Ingestion/Services.antt =====
-- app/ingestion/pipeline.py: what the constructor of the pipeline is given, the codes of errors and
-- the texts that it makes of them. The parser, the chunker, the embedding model and the vector store
-- are services, which may raise.
use lrllm.Prelude.{
  ℕ, Bool, String, Text, codes, Option, List, [], ◌∷◌, map, join, if◌then◌else◌, get_or,
  name_truthy, Dict,
}
use lrllm.Core.Errors.{
  IngestionErrorCode, file_invalid, file_unsupported, file_empty, parser_failed, metadata_invalid,
  metadata_conflict, section_parse_failed, chunk_failed, embedding_failed, vector_index_failed,
  keyword_index_failed, database_failed,
}
use lrllm.Ingestion.Metadata.{Field, StringOps}
use lrllm.Ingestion.Semantic.{AstBlock, SemanticChunk, ParentChunkNode}
use lrllm.Ingestion.ChunkRows.{VectorPoint}

-- The value of an `IngestionErrorCode`.
abbrev pub code_value : IngestionErrorCode → String
code_value file_invalid = "FILE_INVALID"
code_value file_unsupported = "FILE_UNSUPPORTED"
code_value file_empty = "FILE_EMPTY"
code_value parser_failed = "PARSER_FAILED"
code_value metadata_invalid = "METADATA_INVALID"
code_value metadata_conflict = "METADATA_CONFLICT"
code_value section_parse_failed = "SECTION_PARSE_FAILED"
code_value chunk_failed = "CHUNK_FAILED"
code_value embedding_failed = "EMBEDDING_FAILED"
code_value vector_index_failed = "VECTOR_INDEX_FAILED"
code_value keyword_index_failed = "KEYWORD_INDEX_FAILED"
code_value database_failed = "DATABASE_FAILED"

-- `_TERMINAL_ERROR_CODES`
abbrev pub terminal_error_codes : List String
terminal_error_codes = map code_value (
    file_invalid ∷ file_unsupported ∷ file_empty ∷ parser_failed ∷ metadata_invalid
    ∷ metadata_conflict ∷ section_parse_failed ∷ chunk_failed ∷ [])

-- The values that the variable `stage` takes.
pub data Stage : Type 0 where
  in_db in_parse in_metadata in_section in_chunk in_embedding in_vector_index : Stage

abbrev pub stage_name : Stage → String
stage_name in_db = "DB"
stage_name in_parse = "PARSE"
stage_name in_metadata = "METADATA"
stage_name in_section = "SECTION"
stage_name in_chunk = "CHUNK"
stage_name in_embedding = "EMBEDDING"
stage_name in_vector_index = "VECTOR_INDEX"

-- `_STAGE_ERROR_CODES`
abbrev pub stage_error_code : Stage → IngestionErrorCode
stage_error_code in_db = database_failed
stage_error_code in_parse = parser_failed
stage_error_code in_metadata = metadata_invalid
stage_error_code in_section = section_parse_failed
stage_error_code in_chunk = chunk_failed
stage_error_code in_embedding = embedding_failed
stage_error_code in_vector_index = vector_index_failed

-- An exception: an `IngestionError` with its code, message and stage, or any other with its text.
pub data Fault : Type 0 where
  ingestion_error : String → String → String → Fault
  other_error : String → Fault

pub data Reply (A : Type 0) : Type 0 where
  done : A → Reply A
  fault : Fault → Reply A

-- `DocumentAST`, with the two parts of its metadata that are read.
pub record DocumentAst : Type 0 where
  pub explicit : Dict String String
  pub front_matter : Dict String String
  pub title : Option String
  pub blocks : List AstBlock

pub record Parser : Type 0 where
  pub version : String
  pub parse : Text → Reply DocumentAst

-- The constructor's arguments and the library code that `process` calls.
pub record Services (Vector Points : Type 0) : Type 0 where
  pub select_parser : Text → String → Parser
  pub chunker_version : String
  pub chunk : List AstBlock → Reply (List SemanticChunk)
  pub chunk_with_parents : List AstBlock → ℕ → Reply (List ParentChunkNode)
  pub model_name : String
  pub model_version : String
  pub embed_documents : List Text → Reply (List Vector)
  pub delete : List String → Points → Points × Reply Unit
  pub upsert : List (VectorPoint Vector) → Points → Points × Reply Unit
  pub string_ops : StringOps
  pub conflict_message : List Field → String
  pub sha256 : Text → Text
  pub identity : SemanticChunk → ℕ
  pub new_id : ℕ → String

-- The settings that the pipeline reads; times are in seconds.
pub record PipelineSettings : Type 0 where
  pub context_expand_to_parent : Bool
  pub parent_chunk_tokens : ℕ
  pub max_attempts : ℕ
  pub retry_backoff : ℕ

-- `IngestionResult`, less the ids that the caller gave.
pub record IngestionResult : Type 0 where
  pub section_count : ℕ
  pub chunk_count : ℕ
  pub embedding_count : ℕ
  pub skipped : Bool

-- `resolved.title or ast.title or document.title`
abbrev pub title_of : Option String → Option String → String → String
title_of given parsed old =
    if name_truthy given
    then get_or given old
    else if name_truthy parsed
    then get_or parsed old
    else old

-- `_processing_fingerprint`
abbrev pub processing_fingerprint : (Text → Text) → String → String → String → String → Text
processing_fingerprint sha256 content_hash parser_version chunker_version model_version = sha256 (
    join (codes "|")
      (map codes (content_hash ∷ parser_version ∷ chunker_version ∷ model_version ∷ [])))
