-- ===== src/Retrieval/Fusion.antt =====
-- app/retrieval/hybrid.py, `rrf_fuse`: the scores of a chunk by its ranks in both lists, and the
-- candidates by score.
pub mod Scores
pub mod Order
pub mod SinglePath
pub mod Examples
use lrllm.Prelude.{
  ℕ, suc, ◌+◌, Bool, String, List, [], ◌∷◌, Dict, dict_get, dict_set, get_or, sort_desc, take,
  string_eq, IsOrder,
}
use lrllm.Retrieval.Models.{RetrievalHit}

-- The floats of the scores: `0.0`, `x + y`, `1.0 / n` and `x > y`.
pub record Floats (F : Type 0) : Type 0 where
  pub zero : F
  pub add : F → F → F
  pub recip : ℕ → F
  pub gt : F → F → Bool

module _ {F : Type 0} (fl : Floats F) (rrf_k : ℕ) where
  -- One pass of the inner loop, `for rank, hit in enumerate(hits, start=rank)`.
  unfoldable pub score_hits : ℕ → List (RetrievalHit F) → Dict String F → Dict String F
  score_hits rank [] scores = scores
  score_hits rank (hit ∷ hits) scores =
      let old = get_or (dict_get hit.chunk_id scores) fl.zero in
      score_hits (suc rank) hits
        (dict_set hit.chunk_id (fl.add old (fl.recip (rrf_k + rank))) scores)

  -- The dict of scores after both lists.
  pub fuse_scores : List (RetrievalHit F) → List (RetrievalHit F) → Dict String F
  fuse_scores vector_hits keyword_hits = score_hits 1 keyword_hits (score_hits 1 vector_hits [])

  -- `rrf_fuse`
  unfoldable pub rrf_fuse : List (RetrievalHit F) → List (RetrievalHit F) → ℕ → List (String × F)
  unfolding fuse_scores score_hits sort_desc dict_get dict_set
  rrf_fuse vector_hits keyword_hits limit =
      take limit (sort_desc fl.gt (λ item. item.1) (fuse_scores vector_hits keyword_hits))
