-- ===== src/Retrieval/Examples.antt =====
-- Runs of the planner, of the hybrid retrieval, one path of which fails, and of the evidence check,
-- whose model answers with JSON only when asked again.
use lrllm.Prelude.{
  ℕ, ◌≤◌, ◌≡◌, refl, true, String, Text, codes, none, some, List, [], ◌∷◌, length, take, leb, ◌==◌,
  list_eq, ℕ_eq, if◌then◌else◌,
}
use lrllm.Core.Errors.{returned, raised, evidence_check}
use lrllm.Llm.Parsing.{
  JsonOps, object, decode_error, Message, Attempt, done, generate_json, IsAnswer,
  generate_json-IsAnswer,
}
use lrllm.Retrieval.Evidence.{EvidenceCheckOutput, check, IsJudgement, check-IsJudgement}
use lrllm.Retrieval.Models.{RetrievalHit, MetadataFilter, keyword, RankedChunk, supported}
use lrllm.Retrieval.Planner.{plan, how_to, IsSound, plan-IsSound, build_metadata_filter}
use lrllm.Retrieval.Hybrid.{Stores, retrieve, Answers, retrieve-Answers}
use lrllm.Retrieval.Fusion.Examples.{thousandths}

plan-IsSound_example : IsSound 20 30 (plan how_to 20 30)
plan-IsSound_example = plan-IsSound how_to 20 30

abbrev one_hit : RetrievalHit ℕ
one_hit = record { chunk_id = "a"; document_id = "d"; score = 0; source = keyword }

abbrev no_vectors : Stores ℕ ℕ
no_vectors = record {
  embed_query = λ q. raised;
  vector_search = λ v f k. returned [];
  keyword_search = λ q f k. returned (one_hit ∷ []);
}

abbrev filters : MetadataFilter
filters = build_metadata_filter "kb" none none true

retrieve-Answers_example :
    Answers thousandths no_vectors 60 10 raised
      (returned (one_hit ∷ []))
      (retrieve thousandths no_vectors 60 10 "q" filters (plan how_to 20 30))
retrieve-Answers_example =
    retrieve-Answers thousandths no_vectors 60 10 "q" filters (plan how_to 20 30)

abbrev chunk : String → RankedChunk ℕ
chunk id = record {
  chunk_id = id;
  document_id = "d";
  text = codes "text";
  score = 1;
  heading_path = codes "A";
  line_start = 1;
  line_end = 2;
  chunk_type = "TEXT";
  raw_content = none;
  parent_chunk_id = none;
  parent_content = none;
  product = none;
  version = none;
  sub_query_id = none;
}

-- An object is its text, and the schema takes only "{yes}".
abbrev json : JsonOps Text EvidenceCheckOutput
json = record {
  strip = λ t. t;
  splitlines = λ t. t ∷ [];
  loads = λ t. if take 1 t == codes "{" then object t else decode_error;
  validate = λ t.
      if t == codes "{yes}"
      then some (record { status = supported; reason = ""; supporting_chunk_ids = "a" ∷ "x" ∷ [] })
      else none;
  complaint = λ t. codes "again";
}

abbrev second_try : List Message → Attempt Text
second_try messages =
    if leb (length messages) 1 then done (codes "no") else done (codes "so {yes}.")

abbrev plain_prompt : String → List (RankedChunk ℕ) → Attempt Text
plain_prompt query chunks = done (codes "prompt")

judged :
    (check json second_try plain_prompt "q" (chunk "a" ∷ chunk "b" ∷ [])).0
    ≡ done (record { status = supported; reason = ""; supporting_chunk_ids = "a" ∷ [] })
unfolding check
judged = refl

check-IsJudgement_example :
    IsJudgement json second_try plain_prompt
      ("a" ∷ "b" ∷ [])
      (check json second_try plain_prompt "q" (chunk "a" ∷ chunk "b" ∷ [])).0
    × (length (check json second_try plain_prompt "q" (chunk "a" ∷ chunk "b" ∷ [])).1 ≤ 2)
check-IsJudgement_example =
    check-IsJudgement json second_try plain_prompt "q" (chunk "a" ∷ chunk "b" ∷ [])

generate_json-IsAnswer_example :
    IsAnswer json second_try (generate_json json second_try [] evidence_check).0
    × (1 ≤ length (generate_json json second_try [] evidence_check).1)
    × (length (generate_json json second_try [] evidence_check).1 ≤ 2)
generate_json-IsAnswer_example = generate_json-IsAnswer json second_try [] evidence_check
