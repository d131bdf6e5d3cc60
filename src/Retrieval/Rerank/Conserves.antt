-- ===== src/Retrieval/Rerank/Conserves.antt =====
-- The reranker may only reorder: what it returns against the rows it was given.
use mathlib.Core.List.{Nodup, Nodup-cons}
use mathlib.Core.List.Pairwise
use mathlib.Core.List.Nodup
use lrllm.Prelude.{
  ℕ, suc, ◌≤◌, ◌≡◌, refl, ap, ◌∙◌, Bool, true, false, ◌||◌, String, some, List, [], ◌∷◌, map, ℤ,
  in_range, ltb, min, length, take, all_of, distinct_from, distinct_from-Nodup, Dict, dict_get,
  get_or, elem, ◌==◌, All, All-take, arith, string_eq, ℤ_eq, Bool-cases, inl, inr, all_of-take,
  All-map, All-unmap, elem-All, ap₂, length-le_of_distinct, map-take, take-sublist, length-take,
  length-map, not-mem_of_elem, not-mem→elem, eq_self,
}
use lrllm.Core.Errors.{Outcome, returned, raised}
use lrllm.Retrieval.Models.{RankedChunk}
use lrllm.Retrieval.Rows.{ChunkRow}
use lrllm.Retrieval.Rerank.{RerankResult, row_at, pick, reranked, in_rrf_order}
use lrllm.Retrieval.Rerank.Positions.{row_ids, row_at-elem, row_at-injective, row_at-total}

abbrev pub ids_of : {F : Type 0} → List (RankedChunk F) → List String
ids_of = map (λ c. c.chunk_id)

or_true : (a b : Bool) → b ≡ true → (a || b) ≡ true
or_true a b h = ground arith

-- Chunks that reorder some rows: `top_n` of them, or all, none twice.
pub record IsReordering (F : Type 0) (top_n : ℕ) (rows : List ChunkRow) (cs : List (RankedChunk F))
    : Type 0 where
  pub count : length cs ≡ min top_n (length rows)
  pub distinct : Nodup (ids_of cs)
  pub known : All (λ c. elem c.chunk_id (row_ids rows) ≡ true) cs

module _ {F : Type 0} (make : ChunkRow → F → RankedChunk F)
    (make_id : (row : ChunkRow) (s : F) → (make row s).chunk_id ≡ row.id) (rows : List ChunkRow)
    (distinct_rows : Nodup (row_ids rows)) where
  -- What `pick` returns for results in range.
  record IsPicked (rs : List (RerankResult F)) (cs : List (RankedChunk F)) : Type 0 where
    same_length : length cs ≡ length rs
    known : All (λ c. elem c.chunk_id (row_ids rows) ≡ true) cs
    distinct : Nodup (ids_of cs)
    from_index :
        (i : ℤ) (row : ChunkRow)
        → row_at rows i ≡ some row
        → elem row.id (ids_of cs) ≡ true
        → elem i (map (λ r. r.index) rs) ≡ true

  not_picked :
      (rs : List (RerankResult F)) (i : ℤ) (row : ChunkRow) (cs : List (RankedChunk F))
      → row_at rows i ≡ some row
      → IsPicked rs cs
      → elem i (map (λ r. r.index) rs) ≡ false
      → elem row.id (ids_of cs) ≡ false
  not_picked rs i row cs here p new = elim (Bool-cases (elem row.id (ids_of cs))) [
    | inl old ↦ cc (p.from_index i row here old)
    | inr fresh ↦ fresh
  ]

  next-IsPicked :
      (r : RerankResult F) (rs : List (RerankResult F)) (row : ChunkRow) (cs : List (RankedChunk F))
      → row_at rows r.index ≡ some row
      → elem r.index (map (λ r. r.index) rs) ≡ false
      → IsPicked rs cs
      → IsPicked (r ∷ rs) (make row r.score ∷ cs)
  next-IsPicked r rs row cs here new p = record {
    same_length = ap suc p.same_length;
    known = (rw (make_id row r.score) (row_at-elem rows r.index row here), p.known);
    distinct = Nodup-cons.1 (
      not-mem_of_elem _ _ (rw (make_id row r.score) (not_picked rs r.index row cs here p new)),
      p.distinct,
    );
    from_index = λ i row' e m. elim (Bool-cases (row'.id == row.id)) [
      | inl same ↦
          rw
            (row_at-injective rows i r.index row' row distinct_rows e here
              ((string_eq.same_iff row'.id row.id).0 same))
            (rw (eq_self r.index))
      | inr other ↦ or_true _ _ (p.from_index i row' e (ground (arith, m, make_id row r.score)))
    ];
  }

  pick_next :
      (r : RerankResult F) (rs : List (RerankResult F)) (row : ChunkRow) (cs : List (RankedChunk F))
      → row_at rows r.index ≡ some row
      → pick make rows rs ≡ returned cs
      → pick make rows (r ∷ rs) ≡ returned (make row r.score ∷ cs)
  unfolding pick
  pick_next r rs row cs here picked = rw (here, pick, picked)

  -- Results in range, no index twice, are all found.
  pick-IsPicked :
      (rs : List (RerankResult F))
      → all_of (λ r. in_range (length rows) r.index) rs ≡ true
      → Nodup (map (λ r. r.index) rs)
      → (cs : List (RankedChunk F)) × (pick make rows rs ≡ returned cs) × IsPicked rs cs
  unfolding pick
  pick-IsPicked [] h d = (
    [],
    refl,
    record {
      same_length = refl;
      known = tt;
      distinct = Pairwise.nil;
      from_index = λ i row e m. cc;
    },
  )
  pick-IsPicked (r ∷ rs) h d =
      let (row, here) = row_at-total rows r.index (ground arith) in
      let (cs, picked, p) = pick-IsPicked rs (ground arith) (Nodup-cons.0 d).1 in
      let new = not-mem→elem _ _ (Nodup-cons.0 d).0 in
      (
        make row r.score ∷ cs,
        pick_next r rs row cs here picked,
        next-IsPicked r rs row cs here new p,
      )

module _ {F : Type 0} (top_n : ℕ) (rows : List ChunkRow) where
  -- What may come of the `try`.
  abbrev pub MayRerank : Outcome (List (RankedChunk F)) → Type 0
  MayRerank raised = Unit
  MayRerank (returned cs) = IsReordering F top_n rows cs

module _ {F : Type 0} (top_n : ℕ) (make : ChunkRow → F → RankedChunk F)
    (make_id : (row : ChunkRow) (s : F) → (make row s).chunk_id ≡ row.id) (rows : List ChunkRow)
    (distinct_rows : Nodup (row_ids rows)) where
  kept-IsReordering :
      (unique : List (RerankResult F))
      → all_of (λ r. in_range (length rows) r.index) unique ≡ true
      → Nodup (map (λ r. r.index) unique)
      → min top_n (length rows) ≤ length unique
      → MayRerank top_n rows (pick make rows (take top_n unique))
  kept-IsReordering unique h d enough =
      let indices = map (λ (r : RerankResult F). r.index) in
      let (cs, picked, p) =
        pick-IsPicked make make_id rows distinct_rows (take top_n unique)
          (all_of-take _ top_n unique h)
          (rw (map-take (λ (r : RerankResult F). r.index) top_n unique)
            (Nodup.sublist (take-sublist top_n (indices unique)) d)) in
      let fits =
        length-le_of_distinct (ids_of cs) (row_ids rows) p.distinct
          (All-map (λ id. elem id (row_ids rows) ≡ true) (λ c. c.chunk_id) cs p.known) in
      rw picked (record {
        count = omega (
          arith,
          p.same_length,
          length-take top_n unique,
          fits,
          length-map cs (λ c. c.chunk_id),
          length-map rows (λ r. r.id),
        );
        distinct = p.distinct;
        known = p.known;
      })

  pub reranked-IsReordering :
      (answer : Outcome (List (RerankResult F)))
      → MayRerank top_n rows (reranked make top_n rows answer)
  unfolding reranked
  reranked-IsReordering raised = tt
  reranked-IsReordering (returned results) =
      let unique = distinct_from (λ (r : RerankResult F). r.index) [] results in
      elim (Bool-cases (all_of (λ r. in_range (length rows) r.index) unique)) [
        | inr out ↦ rw out tt
        | inl within ↦ elim (Bool-cases (ltb (length unique) (min top_n (length rows)))) [
          | inl short ↦ rw (within, short) tt
          | inr enough ↦
              rw (within, enough)
                (kept-IsReordering unique within (distinct_from-Nodup _ [] results) (ground arith))
        ]
      ]

module _ {F : Type 0} (top_n : ℕ) (make : ChunkRow → F → RankedChunk F)
    (make_id : (row : ChunkRow) (s : F) → (make row s).chunk_id ≡ row.id)
    (rows : List ChunkRow) where
  pub ids-in_rrf_order :
      (scores : Dict String F) (default : F)
      → ids_of (in_rrf_order make top_n rows scores default) ≡ take top_n (row_ids rows)
  unfolding in_rrf_order
  ids-in_rrf_order scores default =
      ids_made (λ row. get_or (dict_get row.id scores) default) (take top_n rows)
      ∙ map-take (λ row. row.id) top_n rows
    where
      ids_made :
          (score : ChunkRow → F) (rs : List ChunkRow)
          → ids_of (map (λ row. make row (score row)) rs) ≡ row_ids rs
      ids_made score [] = refl
      ids_made score (r ∷ rs) = ap₂ (◌∷◌) (make_id r (score r)) (ids_made score rs)

module _ {F : Type 0} (top_n : ℕ) (rows : List ChunkRow)
    (distinct_rows : Nodup (row_ids rows)) where
  pub first_rows-IsReordering :
      (cs : List (RankedChunk F))
      → ids_of cs ≡ take top_n (row_ids rows)
      → IsReordering F top_n rows cs
  first_rows-IsReordering cs same = record {
    count = omega (
      arith,
      length-map cs (λ c. c.chunk_id),
      ap length same,
      length-take top_n (row_ids rows),
      length-map rows (λ r. r.id),
    );
    distinct = rw same (Nodup.sublist (take-sublist top_n (row_ids rows)) distinct_rows);
    known =
        All-unmap (λ id. elem id (row_ids rows) ≡ true) (λ c. c.chunk_id) cs
          (rw same (All-take _ top_n (row_ids rows) (elem-All (row_ids rows))));
  }
