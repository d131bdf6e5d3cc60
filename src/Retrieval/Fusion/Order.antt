-- ===== src/Retrieval/Fusion/Order.antt =====
-- The order of the fused candidates.
use mathlib.Core.List.{Perm}
use lrllm.Prelude.{
  ℕ, ◌≡◌, refl, String, subst, List, string_eq, take, IsOrder, IsDescending, sort_desc,
  sort_desc-perm, sort_desc-IsDescending,
}
use lrllm.Retrieval.Models.{RetrievalHit}
use lrllm.Retrieval.Fusion.{Floats, fuse_scores, rrf_fuse}
use lrllm.Retrieval.Fusion.Scores.{fused_ids, rrf_score, scored, fuse_scores_lem}

module _ {F : Type 0} (fl : Floats F) (rrf_k : ℕ) where
  abbrev pub score_of : String × F → F
  score_of item = item.1

  -- The candidates are the first `limit` of a ranking that holds each chunk of either list exactly
  -- once, with the sum of `1 / (rrf_k + rank)` over its ranks in the two lists, and in which no
  -- chunk has a larger score than one before it; for scores that are ordered as floats are.
  pub rrf_fuse_lem :
      (v k : List (RetrievalHit F)) (limit : ℕ)
      → IsOrder fl.gt
      → (ranking : List (String × F)) × Perm ranking
          (scored fl rrf_k (rrf_score fl rrf_k v k) (fused_ids fl rrf_k v k))
        × IsDescending fl.gt score_of ranking
        × (rrf_fuse fl rrf_k v k limit ≡ take limit ranking)
  rrf_fuse_lem v k limit o =
      let scores = fuse_scores fl rrf_k v k in
      (
        sort_desc fl.gt score_of scores,
        subst (Perm (sort_desc fl.gt score_of scores)) (fuse_scores_lem fl rrf_k v k)
            (sort_desc-perm fl.gt score_of scores),
        sort_desc-IsDescending fl.gt score_of o scores,
        unfold rrf_fuse in refl,
      )
