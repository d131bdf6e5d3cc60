-- ===== src/Retrieval/Rerank/Ranking.antt =====
-- `rank` and `rerank` as a whole: every branch reorders the rows of the candidates.
use mathlib.Core.List.{Nodup, Sublist, nil-sublist}
use mathlib.Core.List.Sublist
use mathlib.Core.List.Pairwise
use mathlib.Core.List.Nodup
use lrllm.Prelude.{
  ℕ, ◌≡◌, refl, ◌⊎◌, inl, inr, Bool, true, false, String, Option, none, some, List, [], ◌∷◌, map,
  take, Dict, dict_get, dict_set, All, arith, string_eq, Bool-cases, Option-cases, ◌==◌,
}
use lrllm.Core.Errors.{Outcome, returned, raised}
use lrllm.Retrieval.Models.{RankedChunk}
use lrllm.Retrieval.Rows.{ChunkRow, ChunkStore}
use lrllm.Retrieval.Rerank.{
  RerankOutcome, Reranker, in_rrf_order, or_fallback, rank_rows, rank, rerank, rows_of, to_ranked,
  load_rows, add_rows, add_parents, dict_of, collect_parent_texts,
}
use lrllm.Retrieval.Rerank.Positions.{row_ids}
use lrllm.Retrieval.Rerank.Conserves.{
  ids_of, IsReordering, MayRerank, reranked-IsReordering, ids-in_rrf_order, first_rows-IsReordering,
}

module _ {F : Type 0} (top_n : ℕ) (rows : List ChunkRow) where
  -- The answer of a ranking: a reordering, which is the given order if the reranker was given up.
  abbrev pub IsRanking : RerankOutcome F → Type 0
  IsRanking out =
      IsReordering F top_n rows out.chunks
      × ((out.fallback ≡ false) ⊎ (ids_of out.chunks ≡ take top_n (row_ids rows)))

module _ {F : Type 0} (top_n : ℕ) (make : ChunkRow → F → RankedChunk F)
    (make_id : (row : ChunkRow) (s : F) → (make row s).chunk_id ≡ row.id)
    (others : List ChunkRow → List (RankedChunk F))
    (others_ids : (rows : List ChunkRow) → ids_of (others rows) ≡ take top_n (row_ids rows)) where
  or_fallback-IsRanking :
      (rows : List ChunkRow) (answer : Outcome (List (RankedChunk F)))
      → Nodup (row_ids rows)
      → MayRerank top_n rows answer
      → IsRanking top_n rows (or_fallback answer (others rows))
  or_fallback-IsRanking rows (returned cs) d h = (h, inl refl)
  or_fallback-IsRanking rows raised d h =
      (first_rows-IsReordering top_n rows d (others rows) (others_ids rows), inr (others_ids rows))

  rank_rows-IsRanking :
      (reranker : Option (Reranker F)) (use_reranker : Bool) (query : String) (rows : List ChunkRow)
      → Nodup (row_ids rows)
      → IsRanking top_n rows (rank_rows reranker use_reranker make others top_n query rows)
  unfolding rank_rows
  rank_rows-IsRanking reranker use_reranker query [] d =
      (record { count = omega arith; distinct = Pairwise.nil; known = tt }, inl refl)
  rank_rows-IsRanking none use_reranker query (row ∷ rows) d =
      (first_rows-IsReordering top_n (row ∷ rows) d _ (others_ids (row ∷ rows)), inl refl)
  rank_rows-IsRanking (some service) false query (row ∷ rows) d =
      (first_rows-IsReordering top_n (row ∷ rows) d _ (others_ids (row ∷ rows)), inl refl)
  rank_rows-IsRanking (some service) true query (row ∷ rows) d =
      or_fallback-IsRanking (row ∷ rows) _ d
        (reranked-IsReordering top_n make make_id (row ∷ rows) d _)

-- Every row stands under its own id.
abbrev pub IsKeyed : Dict String ChunkRow → Type 0
IsKeyed = All (λ p. p.1.id ≡ p.0)

get-IsKeyed :
    (d : Dict String ChunkRow) (k : String) (row : ChunkRow)
    → IsKeyed d
    → dict_get k d ≡ some row
    → row.id ≡ k
unfolding dict_get
get-IsKeyed [] k row h e = cc
get-IsKeyed ((j, r) ∷ d) k row h e =
    ground (arith, h.0, get-IsKeyed d k row h.1, string_eq.same_iff k j)

set-IsKeyed : (r : ChunkRow) (d : Dict String ChunkRow) → IsKeyed d → IsKeyed (dict_set r.id r d)
unfolding dict_set
set-IsKeyed r [] h = (refl, tt)
set-IsKeyed r ((j, w) ∷ d) h = elim (Bool-cases (r.id == j)) [
  | inl p ↦ rw p ((string_eq.same_iff r.id j).0 p, h.1)
  | inr p ↦ rw p (h.0, set-IsKeyed r d h.1)
]

add_rows-IsKeyed :
    (rs : List ChunkRow) (d : Dict String ChunkRow) → IsKeyed d → IsKeyed (add_rows rs d)
unfolding add_rows
add_rows-IsKeyed [] d h = h
add_rows-IsKeyed (r ∷ rs) d h = add_rows-IsKeyed rs (dict_set r.id r d) (set-IsKeyed r d h)

add_parents-IsKeyed :
    (rs : List ChunkRow) (d : Dict String ChunkRow) → IsKeyed d → IsKeyed (add_parents rs d)
unfolding add_parents
add_parents-IsKeyed [] d h = h
add_parents-IsKeyed (r ∷ rs) d h = elim (Option-cases (dict_get r.id d)) [
  | inl new ↦ rw new (add_parents-IsKeyed rs (dict_set r.id r d) (set-IsKeyed r d h))
  | inr (w, old) ↦ rw old (add_parents-IsKeyed rs d h)
]

load_rows-IsKeyed : (store : ChunkStore) (ids : List String) → IsKeyed (load_rows store ids)
unfolding load_rows
load_rows-IsKeyed store ids = add_parents-IsKeyed _ _ (add_rows-IsKeyed _ [] tt)

rows_of-sublist :
    (d : Dict String ChunkRow) (ids : List String)
    → IsKeyed d
    → Sublist (row_ids (rows_of d ids)) ids
unfolding rows_of
rows_of-sublist d [] h = nil-sublist []
rows_of-sublist d (k ∷ ids) h = elim (Option-cases (dict_get k d)) [
  | inl new ↦ rw (new, rows_of) (Sublist.cons k (rows_of-sublist d ids h))
  | inr (row, old) ↦
      rw (old, rows_of, get-IsKeyed d k row h old) (Sublist.cons-cons k (rows_of-sublist d ids h))
]

module _ {F : Type 0} where
  pub rank-IsRanking :
      (reranker : Option (Reranker F)) (default : F) (top_n : ℕ) (query : String)
      (candidates : List (String × F)) (rows : Dict String ChunkRow) (sub : Option String)
      (use_reranker : Bool)
      → Nodup (map (λ c. c.0) candidates)
      → IsKeyed rows
      → IsRanking top_n
          (rows_of rows (map (λ c. c.0) candidates))
          (rank reranker default top_n query candidates rows sub use_reranker)
  rank-IsRanking reranker default top_n query candidates rows sub use_reranker d h =
      let ids = map (λ (c : String × F). c.0) candidates in
      let make : ChunkRow → F → RankedChunk F = to_ranked sub (collect_parent_texts rows ids []) in
      unfold rank in
      rank_rows-IsRanking top_n make (λ row s. refl)
        (λ rs. in_rrf_order make top_n rs (dict_of candidates []) default)
        (λ rs. ids-in_rrf_order top_n make (λ row s. refl) rs (dict_of candidates []) default)
        reranker use_reranker query (rows_of rows ids)
        (Nodup.sublist (rows_of-sublist rows ids h) d)

  -- Whatever the reranker does (is absent, raises, answers with any indices), for candidates without
  -- repetition `rerank` returns as many of their rows as there are, up to the limit, none twice and
  -- no other; and if it gave the reranker up, these are the first rows in the order of the fusion.
  pub rerank-IsRanking :
      (store : ChunkStore) (reranker : Option (Reranker F)) (default : F) (top_n : ℕ)
      (query : String) (candidates : List (String × F)) (sub : Option String)
      → Nodup (map (λ c. c.0) candidates)
      → let ids = map (λ c. c.0) candidates in
        IsRanking top_n
          (rows_of (load_rows store ids) ids)
          (rerank store reranker default top_n query candidates sub)
  unfolding rerank
  rerank-IsRanking store reranker default top_n query candidates sub d =
      rank-IsRanking reranker default top_n query candidates _ sub true d
        (load_rows-IsKeyed store (map (λ c. c.0) candidates))
