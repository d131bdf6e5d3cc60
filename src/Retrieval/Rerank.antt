-- ===== src/Retrieval/Rerank.antt =====
-- app/retrieval/rerank.py. The reranker is a service outside the program: its call is an argument,
-- which may raise or return anything.
pub mod Positions
pub mod Conserves
pub mod Ranking
mod Examples
use lrllm.Prelude.{
  ℕ, ◌≡◌, Bool, true, false, not, ◌&&◌, String, Text, Option, none, some, List, [], ◌∷◌, map, ℤ,
  pos, negsuc, in_range, ltb, min, length, take, get_elem?, all_of, distinct_from, Dict, dict_get,
  dict_set, get_or, or_text, if◌then◌else◌, string_eq, ℤ_eq,
}
use lrllm.Core.Errors.{Outcome, returned, raised}
use lrllm.Retrieval.Models.{RankedChunk}
use lrllm.Retrieval.Rows.{ChunkRow, ChunkStore, get_many}

-- `RerankOutcome`
pub record RerankOutcome (F : Type 0) : Type 0 where
  pub chunks : List (RankedChunk F)
  pub fallback : Bool

-- A result of the reranker: an index into the texts, with a score.
pub record RerankResult (F : Type 0) : Type 0 where
  pub index : ℤ
  pub score : F

abbrev pub Reranker : Type 0 → Type 0
Reranker F = String → List Text → ℕ → Outcome (List (RerankResult F))

-- `{str(r.id): r for r in rows}`, then `setdefault` for each parent.
unfoldable pub add_rows : List ChunkRow → Dict String ChunkRow → Dict String ChunkRow
add_rows [] loaded = loaded
add_rows (r ∷ rs) loaded = add_rows rs (dict_set r.id r loaded)

unfoldable pub add_parents : List ChunkRow → Dict String ChunkRow → Dict String ChunkRow
add_parents [] loaded = loaded
add_parents (r ∷ rs) loaded =
    add_parents rs (elim (dict_get r.id loaded) [ none ↦ dict_set r.id r loaded | some _ ↦ loaded ])

-- The parents that some rows name.
abbrev pub parent_ids : List ChunkRow → List String
parent_ids [] = []
parent_ids (r ∷ rs) = elim r.parent_chunk_id [ none ↦ parent_ids rs | some p ↦ p ∷ parent_ids rs ]

-- `RerankService.load_rows`
unfoldable pub load_rows : ChunkStore → List String → Dict String ChunkRow
unfolding distinct_from get_many dict_get dict_set
load_rows store candidate_ids =
    let unique_ids = distinct_from (λ id. id) [] candidate_ids in
    let rows = get_many store unique_ids true in
    let parents = get_many store (distinct_from (λ id. id) [] (parent_ids rows)) false in
    add_parents parents (add_rows rows [])

-- `_collect_parent_texts`, with its dict.
unfoldable pub collect_parent_texts :
    Dict String ChunkRow → List String → Dict String Text → Dict String Text
unfolding dict_get dict_set
collect_parent_texts rows [] texts = texts
collect_parent_texts rows (cid ∷ cids) texts =
    collect_parent_texts rows cids (elim (dict_get cid rows) [
      | none ↦ texts
      | some row ↦ elim row.parent_chunk_id [
        | none ↦ texts
        | some p ↦ elim (dict_get p rows) [
          | none ↦ texts
          | some parent ↦ dict_set p (or_text parent.raw_content parent.text) texts
        ]
      ]
    ])

-- `[rows_by_id[cid] for cid in candidate_ids if cid in rows_by_id]`
unfoldable pub rows_of : Dict String ChunkRow → List String → List ChunkRow
unfolding dict_get
rows_of rows [] = []
rows_of rows (cid ∷ cids) = elim (dict_get cid rows) [
  | none ↦ rows_of rows cids
  | some row ↦ row ∷ rows_of rows cids
]

-- `ordered_rows[i]`; a negative index does not get here.
unfoldable pub row_at : List ChunkRow → ℤ → Option ChunkRow
row_at rows (pos i) = get_elem? rows i
row_at rows (negsuc i) = none

module _ {F : Type 0} where
  -- `_to_ranked`
  abbrev pub to_ranked : Option String → Dict String Text → ChunkRow → F → RankedChunk F
  to_ranked sub_query_id parent_texts row score = record {
    chunk_id = row.id;
    document_id = row.document_id;
    text = row.text;
    score = score;
    heading_path = row.heading_path;
    line_start = row.line_start;
    line_end = row.line_end;
    chunk_type = row.chunk_type;
    raw_content = row.raw_content;
    parent_chunk_id = row.parent_chunk_id;
    parent_content = elim row.parent_chunk_id [ none ↦ none | some p ↦ dict_get p parent_texts ];
    product = row.product;
    version = row.version;
    sub_query_id = sub_query_id;
  }

  -- `[make(ordered_rows[r.index], r.score) for r in results]`
  unfoldable pub pick :
      (ChunkRow → F → RankedChunk F)
      → List ChunkRow
      → List (RerankResult F)
      → Outcome (List (RankedChunk F))
  pick make rows [] = returned []
  pick make rows (r ∷ rs) = elim (row_at rows r.index) [
    | none ↦ raised
    | some row ↦ elim (pick make rows rs) [
      | raised ↦ raised
      | returned cs ↦ returned (make row r.score ∷ cs)
    ]
  ]

  -- The body of the `try`: the reranked chunks, unless the contract is broken.
  unfoldable pub reranked :
      (ChunkRow → F → RankedChunk F)
      → ℕ
      → List ChunkRow
      → Outcome (List (RerankResult F))
      → Outcome (List (RankedChunk F))
  reranked make top_n rows raised = raised
  reranked make top_n rows (returned results) =
      let n = length rows in
      let unique = distinct_from (λ r. r.index) [] results in
      if not (all_of (λ r. in_range n r.index) unique)
      then raised
      else if ltb (length unique) (min top_n n)
      then raised
      else pick make rows (take top_n unique)

  -- The fallback: the first rows, with their scores of the fusion.
  unfoldable pub in_rrf_order :
      (ChunkRow → F → RankedChunk F) → ℕ → List ChunkRow → Dict String F → F → List (RankedChunk F)
  in_rrf_order make top_n rows scores zero =
      map (λ row. make row (get_or (dict_get row.id scores) zero)) (take top_n rows)

  abbrev pub or_fallback : Outcome (List (RankedChunk F)) → List (RankedChunk F) → RerankOutcome F
  or_fallback (returned chunks) others = record { chunks = chunks; fallback = false }
  or_fallback raised others = record { chunks = others; fallback = true }

  -- `dict(candidates)`
  unfoldable pub dict_of : List (String × F) → Dict String F → Dict String F
  dict_of [] d = d
  dict_of ((cid, s) ∷ cs) d = dict_of cs (dict_set cid s d)

  -- `rank` once the rows are found.
  unfoldable pub rank_rows :
      Option (Reranker F)
      → Bool
      → (ChunkRow → F → RankedChunk F)
      → (List ChunkRow → List (RankedChunk F))
      → ℕ
      → String
      → List ChunkRow
      → RerankOutcome F
  rank_rows reranker use_reranker make others top_n query [] = record {
    chunks = [];
    fallback = false;
  }
  rank_rows reranker use_reranker make others top_n query (row ∷ rows) =
      let unranked : RerankOutcome F = record { chunks = others (row ∷ rows); fallback = false } in
      elim reranker [
        | none ↦ unranked
        | some service ↦
            if use_reranker
            then or_fallback
                (reranked make top_n (row ∷ rows)
                  (service query (map (λ r. r.text) (row ∷ rows)) top_n))
                (others (row ∷ rows))
            else unranked
      ]

  -- `RerankService.rank`; `zero` is `0.0`. Without candidates there are no rows either.
  unfoldable pub rank :
      Option (Reranker F)
      → F
      → ℕ
      → String
      → List (String × F)
      → Dict String ChunkRow
      → Option String
      → Bool
      → RerankOutcome F
  unfolding row_at pick reranked
  rank reranker zero top_n query candidates rows_by_id sub_query_id use_reranker =
      let ids = map (λ c. c.0) candidates in
      let scores = dict_of candidates [] in
      let make : ChunkRow → F → RankedChunk F =
        to_ranked sub_query_id (collect_parent_texts rows_by_id ids []) in
      rank_rows reranker use_reranker make (λ rows. in_rrf_order make top_n rows scores zero) top_n
        query (rows_of rows_by_id ids)

  -- `RerankService.rerank`
  unfoldable pub rerank :
      ChunkStore
      → Option (Reranker F)
      → F
      → ℕ
      → String
      → List (String × F)
      → Option String
      → RerankOutcome F
  unfolding load_rows rank add_rows add_parents
  rerank store reranker zero top_n query candidates sub_query_id =
      rank reranker zero top_n query candidates (load_rows store (map (λ c. c.0) candidates))
        sub_query_id true
