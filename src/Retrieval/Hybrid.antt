-- ===== src/Retrieval/Hybrid.antt =====
-- app/retrieval/hybrid.py, `HybridRetriever`: both recalls, each of which may fail. The embedding
-- model and the two stores are code outside the module: their calls are arguments.
use lrllm.Prelude.{ℕ, ◌≡◌, refl, Bool, true, false, ◌&&◌, String, some, List, [], if◌then◌else◌}
use lrllm.Core.Errors.{
  AppError, Outcome, returned, raised, Result, ok, err, is_raised, returned_or, vector_retrieval,
}
use lrllm.Retrieval.Models.{RetrievalHit, MetadataFilter}
use lrllm.Retrieval.Planner.{RetrievalStrategy}
use lrllm.Retrieval.Fusion.{Floats, rrf_fuse}

-- `HybridResult`
pub record HybridResult (F : Type 0) : Type 0 where
  pub vector_hits : List (RetrievalHit F)
  pub keyword_hits : List (RetrievalHit F)
  pub candidates : List (String × F)
  pub vector_degraded : Bool
  pub keyword_degraded : Bool

-- `embed_query`, and the `search` of the vector store and of the keyword store.
pub record Stores (F Vector : Type 0) : Type 0 where
  pub embed_query : String → Outcome Vector
  pub vector_search : Vector → MetadataFilter → ℕ → Outcome (List (RetrievalHit F))
  pub keyword_search : String → MetadataFilter → ℕ → Outcome (List (RetrievalHit F))

abbrev pub retrieval_unavailable : AppError
retrieval_unavailable = record {
  code = "RETRIEVAL_UNAVAILABLE";
  stage = some vector_retrieval;
  http_status = 500;
}

module _ {F Vector : Type 0} (fl : Floats F) (stores : Stores F Vector) where
  -- `_vector_recall`
  abbrev pub vector_recall :
      String → MetadataFilter → RetrievalStrategy → Outcome (List (RetrievalHit F))
  vector_recall query filters strategy = elim (stores.embed_query query) [
    | raised ↦ raised
    | returned vector ↦ stores.vector_search vector filters strategy.top_k_vector
  ]

  -- `_keyword_recall`
  abbrev pub keyword_recall :
      String → MetadataFilter → RetrievalStrategy → Outcome (List (RetrievalHit F))
  keyword_recall query filters strategy = stores.keyword_search query filters strategy.top_k_keyword

  -- `retrieve` once both recalls are done.
  unfoldable pub combine :
      ℕ
      → ℕ
      → Outcome (List (RetrievalHit F))
      → Outcome (List (RetrievalHit F))
      → Result (HybridResult F)
  combine rrf_k limit vector keyword =
      let vector_hits = returned_or vector [] in
      let keyword_hits = returned_or keyword [] in
      if is_raised vector && is_raised keyword
      then err retrieval_unavailable
      else ok (record {
        vector_hits = vector_hits;
        keyword_hits = keyword_hits;
        candidates = rrf_fuse fl rrf_k vector_hits keyword_hits limit;
        vector_degraded = is_raised vector;
        keyword_degraded = is_raised keyword;
      })

  -- `HybridRetriever.retrieve`
  unfoldable pub retrieve :
      ℕ → ℕ → String → MetadataFilter → RetrievalStrategy → Result (HybridResult F)
  unfolding combine
  retrieve rrf_k limit query filters strategy =
      combine rrf_k limit (vector_recall query filters strategy)
        (keyword_recall query filters strategy)

  -- What a caller may rely on in the answer of `retrieve`, by how the two recalls went.
  abbrev pub Answers :
      ℕ
      → ℕ
      → Outcome (List (RetrievalHit F))
      → Outcome (List (RetrievalHit F))
      → Result (HybridResult F)
      → Type 0
  Answers rrf_k limit raised raised r = r ≡ err retrieval_unavailable
  Answers rrf_k limit raised (returned hits) r =
      (h : HybridResult F) × (r ≡ ok h)
      × (h.vector_degraded ≡ true)
      × (h.keyword_degraded ≡ false)
      × (h.candidates ≡ rrf_fuse fl rrf_k [] hits limit)
  Answers rrf_k limit (returned hits) raised r =
      (h : HybridResult F) × (r ≡ ok h)
      × (h.vector_degraded ≡ false)
      × (h.keyword_degraded ≡ true)
      × (h.candidates ≡ rrf_fuse fl rrf_k hits [] limit)
  Answers rrf_k limit (returned v) (returned k) r =
      (h : HybridResult F) × (r ≡ ok h)
      × (h.vector_degraded ≡ false)
      × (h.keyword_degraded ≡ false)
      × (h.candidates ≡ rrf_fuse fl rrf_k v k limit)

  combine-Answers :
      (rrf_k limit : ℕ) (v k : Outcome (List (RetrievalHit F)))
      → Answers rrf_k limit v k (combine rrf_k limit v k)
  unfolding combine
  combine-Answers rrf_k limit raised raised = refl
  combine-Answers rrf_k limit raised (returned k) = (_, refl, refl, refl, refl)
  combine-Answers rrf_k limit (returned v) raised = (_, refl, refl, refl, refl)
  combine-Answers rrf_k limit (returned v) (returned k) = (_, refl, refl, refl, refl)

  -- Hybrid retrieval fails, with its classified error, exactly if both recalls fail; if one fails
  -- it is flagged as degraded and the candidates are those of the other alone; else neither is
  -- flagged and the candidates fuse both.
  pub retrieve-Answers :
      (rrf_k limit : ℕ) (query : String) (filters : MetadataFilter) (strategy : RetrievalStrategy)
      → Answers rrf_k limit
          (vector_recall query filters strategy)
          (keyword_recall query filters strategy)
          (retrieve rrf_k limit query filters strategy)
  unfolding retrieve
  retrieve-Answers rrf_k limit query filters strategy = combine-Answers rrf_k limit _ _
