-- ===== src/Retrieval/Rerank/Positions.antt =====
-- The place of a row in the list that the reranker's indices refer to.
use mathlib.Core.List.{Nodup, Nodup-cons}
use lrllm.Prelude.{
  zero, suc, ◌≡◌, refl, true, String, some, List, [], ◌∷◌, map, ℤ, pos, negsuc, in_range, length,
  elem, arith, string_eq, ℤ_eq, not-mem→elem, eq_self,
}
use lrllm.Retrieval.Rows.{ChunkRow}
use lrllm.Retrieval.Rerank.{row_at}

abbrev pub row_ids : List ChunkRow → List String
row_ids = map (λ r. r.id)

pub row_at-elem :
    (rows : List ChunkRow) (i : ℤ) (row : ChunkRow)
    → row_at rows i ≡ some row
    → elem row.id (row_ids rows) ≡ true
unfolding row_at
row_at-elem rows (negsuc i) row h = cc
row_at-elem [] (pos i) row h = cc
row_at-elem (r ∷ rows) (pos zero) row h = let same : r ≡ row = cc in rw (← same, eq_self r.id)
row_at-elem (r ∷ rows) (pos (suc i)) row h =
    let later = row_at-elem rows (pos i) row h in ground arith

-- Rows with different ids stand at different places.
pub row_at-injective :
    (rows : List ChunkRow) (i j : ℤ) (row row' : ChunkRow)
    → Nodup (row_ids rows)
    → row_at rows i ≡ some row
    → row_at rows j ≡ some row'
    → row.id ≡ row'.id
    → i ≡ j
unfolding row_at
row_at-injective rows (negsuc i) j row row' d h k e = cc
row_at-injective rows (pos i) (negsuc j) row row' d h k e = cc
row_at-injective [] (pos i) (pos j) row row' d h k e = cc
row_at-injective (r ∷ rows) (pos zero) (pos zero) row row' d h k e = refl
row_at-injective (r ∷ rows) (pos zero) (pos (suc j)) row row' d h k e =
    let later = row_at-elem rows (pos j) row' k in
    let fresh = not-mem→elem r.id (row_ids rows) (Nodup-cons.0 d).0 in let same : r ≡ row = cc in cc
row_at-injective (r ∷ rows) (pos (suc i)) (pos zero) row row' d h k e =
    let later = row_at-elem rows (pos i) row h in
    let fresh = not-mem→elem r.id (row_ids rows) (Nodup-cons.0 d).0 in
    let same : r ≡ row' = cc in cc
row_at-injective (r ∷ rows) (pos (suc i)) (pos (suc j)) row row' d h k e =
    let same = row_at-injective rows (pos i) (pos j) row row' (Nodup-cons.0 d).1 h k e in cc

pub row_at-total :
    (rows : List ChunkRow) (i : ℤ)
    → in_range (length rows) i ≡ true
    → (row : ChunkRow) × (row_at rows i ≡ some row)
unfolding row_at
row_at-total rows (negsuc i) h = cc
row_at-total [] (pos i) h = absurd (ground arith)
row_at-total (r ∷ rows) (pos zero) h = (r, refl)
row_at-total (r ∷ rows) (pos (suc i)) h = row_at-total rows (pos i) (ground arith)
