-- ===== src/Core/Errors.antt =====
-- app/core/errors.py. An exception is a value; the messages, which only people read, are left out.
use lrllm.Prelude.{ℕ, String, Option, Bool, true, false}

-- `QueryStage`
pub data QueryStage : Type 0 where
  query_understanding query_rewrite query_decomposition retrieval_planning : QueryStage
  metadata_filter vector_retrieval keyword_retrieval reranking evidence_check : QueryStage
  context_building llm_generation : QueryStage

-- `IngestionErrorCode`
pub data IngestionErrorCode : Type 0 where
  file_invalid file_unsupported file_empty parser_failed metadata_invalid : IngestionErrorCode
  metadata_conflict section_parse_failed chunk_failed embedding_failed : IngestionErrorCode
  vector_index_failed keyword_index_failed database_failed : IngestionErrorCode

-- `AppError`
pub record AppError : Type 0 where
  pub code : String
  pub stage : Option QueryStage
  pub http_status : ℕ

-- What a call of code outside the program gives: a value, or any exception.
pub data Outcome {ℓ} (A : Type ℓ) : Type ℓ where
  returned : A → Outcome A
  raised : Outcome A

-- A call of the program's own code that may raise an `AppError`.
pub data Result {ℓ} (A : Type ℓ) : Type ℓ where
  ok : A → Result A
  err : AppError → Result A

infixl 5 ◌>>=◌
abbrev pub ◌>>=◌ {ℓ κ} : {A : Type ℓ} {B : Type κ} → Result A → (A → Result B) → Result B
ok a >>= f = f a
err e >>= f = err e

abbrev pub is_raised {ℓ} : {A : Type ℓ} → Outcome A → Bool
is_raised (returned a) = false
is_raised raised = true

-- The value of a call, or what stands in for it after an exception.
abbrev pub returned_or {ℓ} : {A : Type ℓ} → Outcome A → A → A
returned_or (returned a) d = a
returned_or raised d = d
