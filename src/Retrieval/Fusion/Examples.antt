-- ===== src/Retrieval/Fusion/Examples.antt =====
-- Runs of the fusion. The floats are thousandths here.
use mathlib.Core.List.{Perm, Nodup, Nodup-cons, not-mem-nil}
use mathlib.Core.List.Pairwise
use native.Mathlib.Nat.{le-div_iff_mul-le, div-mul-le_self, mul-le-mul_left, le_trans}
use lrllm.Prelude.{
  ℕ, ◌+◌, ◌/◌, ◌≡◌, refl, String, List, [], ◌∷◌, arith, ltb, keys, take, IsOrder, IsDescending,
  string_eq, not-mem_of_elem,
}
use lrllm.Retrieval.Models.{RetrievalHit, RetrievalSource, vector, keyword}
use lrllm.Retrieval.Fusion.{Floats, rrf_fuse}
use lrllm.Retrieval.Fusion.Scores.{chunk_ids, fused_ids, rrf_score, scored}
use lrllm.Retrieval.Fusion.Order.{score_of, rrf_fuse_lem}
use lrllm.Retrieval.Fusion.SinglePath.{Falls, rrf_fuse_single}

abbrev pub thousandths : Floats ℕ
thousandths = record { zero = 0; add = λ x y. x + y; recip = λ n. 1000 / n; gt = λ x y. ltb y x }

abbrev hit : String → RetrievalSource → RetrievalHit ℕ
hit id source = record { chunk_id = id; document_id = "d"; score = 0; source = source }

abbrev by_vector : List (RetrievalHit ℕ)
by_vector = hit "a" vector ∷ hit "b" vector ∷ []

abbrev by_keyword : List (RetrievalHit ℕ)
by_keyword = hit "b" keyword ∷ hit "c" keyword ∷ []

runs : rrf_fuse thousandths 60 by_vector by_keyword 2 ≡ ("b", 32) ∷ ("a", 16) ∷ []
unfolding rrf_fuse
runs = refl

thousandths-IsOrder : IsOrder thousandths.gt
thousandths-IsOrder = record { asym = λ x y h. ground arith; trans = λ x y z h k. ground arith }

rrf_fuse_lem_example :
    (ranking : List (String × ℕ)) × Perm ranking (
      scored thousandths 60
        (rrf_score thousandths 60 by_vector by_keyword)
        (fused_ids thousandths 60 by_vector by_keyword))
    × IsDescending thousandths.gt (score_of thousandths 60) ranking
    × (rrf_fuse thousandths 60 by_vector by_keyword 2 ≡ take 2 ranking)
rrf_fuse_lem_example = rrf_fuse_lem thousandths 60 by_vector by_keyword 2 thousandths-IsOrder

distinct_hits : Nodup (chunk_ids by_vector)
distinct_hits = Nodup-cons.1 (not-mem_of_elem _ _ refl, Nodup-cons.1 (not-mem-nil, Pairwise.nil))

thousandths-Falls : Falls thousandths 60
thousandths-Falls m n p h =
    let later = le-div_iff_mul-le {k = m} {x = 1000 / n} {y = 1000} p in
    let fits = div-mul-le_self 1000 n in
    let less = mul-le-mul_left (1000 / n) h in
    let falls = later.1 (le_trans less fits) in ground arith

rrf_fuse_single_example :
    (keys (rrf_fuse thousandths 60 by_vector [] 2) ≡ "a" ∷ "b" ∷ [])
    × (keys (rrf_fuse thousandths 60 [] by_vector 2) ≡ "a" ∷ "b" ∷ [])
rrf_fuse_single_example = rrf_fuse_single thousandths 60 by_vector 2 distinct_hits thousandths-Falls
