-- ===== src/Retrieval/Rerank/Examples.antt =====
-- Runs of the reranking, with a service that answers with indices out of range or in reverse.
use mathlib.Core.List.{Nodup, Nodup-cons, not-mem-nil}
use mathlib.Core.List.Pairwise
use lrllm.Prelude.{
  ℕ, ◌≡◌, refl, true, false, String, none, some, List, [], ◌∷◌, map, codes, pos, string_eq,
  not-mem_of_elem,
}
use lrllm.Core.Errors.{returned}
use lrllm.Retrieval.Rows.{ChunkRow, ChunkStore}
use lrllm.Retrieval.Rerank.{Reranker, rerank, rank_rows, load_rows, rows_of}
use lrllm.Retrieval.Rerank.Ranking.{IsRanking, rerank-IsRanking}
use lrllm.Retrieval.Rerank.Conserves.{ids_of}

abbrev row : String → ChunkRow
row id = record {
  id = id;
  document_id = "d";
  text = codes id;
  raw_content = none;
  heading_path = codes "H";
  line_start = 1;
  line_end = 2;
  chunk_type = "TEXT";
  parent_chunk_id = none;
  product = none;
  version = none;
  deleted = false;
}

abbrev store : ChunkStore
store = record { rows = row "a" ∷ row "b" ∷ []; ready = λ d. true }

abbrev candidates : List (String × ℕ)
candidates = ("b", 9) ∷ ("a", 8) ∷ []

abbrev reverses : Reranker ℕ
reverses query texts top_k =
    returned (record { index = pos 1; score = 5 } ∷ record { index = pos 0; score = 4 } ∷ [])

abbrev strays : Reranker ℕ
strays query texts top_k =
    returned (record { index = pos 7; score = 5 } ∷ record { index = pos 0; score = 4 } ∷ [])

reversed : ids_of (rerank store (some reverses) 0 2 "q" candidates none).chunks ≡ "a" ∷ "b" ∷ []
unfolding rerank rank_rows rows_of
reversed = refl

given_up : (rerank store (some strays) 0 2 "q" candidates none).fallback ≡ true
unfolding rerank rank_rows rows_of
given_up = refl

distinct_ids : Nodup (map (λ c. c.0) candidates)
distinct_ids = Nodup-cons.1 (not-mem_of_elem _ _ refl, Nodup-cons.1 (not-mem-nil, Pairwise.nil))

rerank-IsRanking_example :
    IsRanking 2
      (rows_of (load_rows store ("b" ∷ "a" ∷ [])) ("b" ∷ "a" ∷ []))
      (rerank store (some strays) 0 2 "q" candidates none)
rerank-IsRanking_example = rerank-IsRanking store (some strays) 0 2 "q" candidates none distinct_ids
