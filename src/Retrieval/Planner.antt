-- ===== src/Retrieval/Planner.antt =====
-- app/domain/query/models.py, app/retrieval/planner.py and app/retrieval/filters.py: the strategy
-- for an intent, and the filter for a query.
use lrllm.Prelude.{
  ℕ, ◌*◌, ◌≤◌, ◌≡◌, Bool, true, false, String, Option, none, some, List, arith, name_truthy,
  if◌then◌else◌,
}
use lrllm.Retrieval.Models.{MetadataFilter}

-- `Intent`
pub data Intent : Type 0 where
  exact_qa how_to summary comparison capability concept document_analysis : Intent
  general_knowledge tool_action : Intent

-- `QueryUnderstanding`
pub record QueryUnderstanding : Type 0 where
  pub intent : Intent
  pub knowledge_required : Bool
  pub product : Option String
  pub version : Option String
  pub entities : List String
  pub constraints : List String

-- `SubQuery`
pub record SubQuery : Type 0 where
  pub id : String
  pub query : String
  pub product : Option String
  pub version : Option String

-- `RetrievalStrategy`
pub record RetrievalStrategy : Type 0 where
  pub name : String
  pub top_k_vector : ℕ
  pub top_k_keyword : ℕ
  pub use_reranker : Bool
  pub decompose : Bool
  pub needs_rag : Bool

-- A strategy with the defaults of the dataclass.
abbrev pub strategy : String → ℕ → ℕ → RetrievalStrategy
strategy name top_k_vector top_k_keyword = record {
  name = name;
  top_k_vector = top_k_vector;
  top_k_keyword = top_k_keyword;
  use_reranker = true;
  decompose = false;
  needs_rag = true;
}

-- `plan`, with the two settings that it reads.
unfoldable pub plan : Intent → ℕ → ℕ → RetrievalStrategy
plan exact_qa kv kk = strategy "hybrid_rerank" kv kk
plan concept kv kk = strategy "hybrid_rerank" kv kk
plan document_analysis kv kk = strategy "hybrid_rerank" kv kk
plan how_to kv kk = strategy "hybrid_rerank" kv (kk * 2)
plan capability kv kk = strategy "evidence_focused" (kv * 2) kk
plan summary kv kk = strategy "multi_section" (kv * 2) (kk * 2)
plan comparison kv kk = let s = strategy "decompose" kv kk in record s { decompose = true }
plan general_knowledge kv kk =
    let s = strategy "no_rag" 0 0 in record s { use_reranker = false; needs_rag = false }
plan tool_action kv kk =
    let s = strategy "no_rag" 0 0 in record s { use_reranker = false; needs_rag = false }

-- `a or b` of two names that may be missing.
abbrev pub or_name : Option String → Option String → Option String
or_name a b = if name_truthy a then a else b

-- `understanding.product if understanding is not None else None`
abbrev pub understood :
    (QueryUnderstanding → Option String) → Option QueryUnderstanding → Option String
understood field none = none
understood field (some u) = field u

-- `build_metadata_filter`
unfoldable pub build_metadata_filter :
    String → Option QueryUnderstanding → Option SubQuery → Bool → MetadataFilter
build_metadata_filter kb understanding sub_query include_wiki =
    let product = understood (λ u. u.product) understanding in
    let version = understood (λ u. u.version) understanding in
    record {
      knowledge_base_id = kb;
      product = elim sub_query [ none ↦ product | some s ↦ or_name s.product product ];
      version = elim sub_query [ none ↦ version | some s ↦ or_name version s.version ];
      doc_class = none;
      include_wiki = include_wiki;
    }

-- A strategy that retrieves asks each path for at least the configured number of hits and at most
-- twice that, with the reranker; one that does not asks for none, without it.
pub record IsSound (kv kk : ℕ) (s : RetrievalStrategy) : Type 0 where
  pub reranks : s.use_reranker ≡ s.needs_rag
  pub vector : (if s.needs_rag then kv else 0) ≤ s.top_k_vector
  pub vector_bound : s.top_k_vector ≤ (if s.needs_rag then 2 * kv else 0)
  pub keyword : (if s.needs_rag then kk else 0) ≤ s.top_k_keyword
  pub keyword_bound : s.top_k_keyword ≤ (if s.needs_rag then 2 * kk else 0)

-- For every intent the plan reranks exactly if it retrieves; if it does, it asks each path for
-- between one and two times the configured number of hits, else for none.
pub plan-IsSound : (intent : Intent) (kv kk : ℕ) → IsSound kv kk (plan intent kv kk)
unfolding plan
plan-IsSound exact_qa kv kk = ground arith
plan-IsSound _ kv kk = ground arith
