-- ===== src/Ingestion/Tables.antt =====
-- app/ingestion/chunkers/semantic.py, `_normalize_table`: the text of a table for retrieval.
use lrllm.Prelude.{
  Bool, not, Text, codes, List, [], ◌∷◌, ◌++◌, map, select, all_of, elem, ℕ_eq, join, is_nonempty,
  if◌then◌else◌,
}

-- `strip()`, `strip("|")`, `split("|")` and `splitlines()`.
pub record TableOps : Type 0 where
  pub strip : Text → Text
  pub strip_bars : Text → Text
  pub split_bars : Text → List Text
  pub splitlines : Text → List Text

-- `set(c) <= set("-: ")`
abbrev pub is_rule : Text → Bool
is_rule cell = all_of (λ c. elem c (codes "-: ")) cell

-- `f"{h}: {v}" for h, v in zip(header, row) if v`
unfoldable pub pairs : List Text → List Text → List Text
pairs [] vs = []
pairs (h ∷ hs) [] = []
pairs (h ∷ hs) (v ∷ vs) =
    let rest = pairs hs vs in if is_nonempty v then (h ++ (codes ": " ++ v)) ∷ rest else rest

abbrev pub table_rows : TableOps → Text → List (List Text)
table_rows ops raw =
    select (λ r. not (all_of is_rule r))
      (map (λ line. map ops.strip (ops.split_bars (ops.strip_bars (ops.strip line))))
        (select (λ line. is_nonempty (ops.strip line)) (ops.splitlines raw)))

abbrev pub row_lines : List (List Text) → Text → Text
row_lines [] raw = raw
row_lines (header ∷ []) raw = raw
row_lines (header ∷ row ∷ rows) raw =
    join (codes "\n") (map (λ r. join (codes "; ") (pairs header r)) (row ∷ rows))

-- `_normalize_table`
unfoldable pub normalize_table : TableOps → Text → Text
normalize_table ops raw = row_lines (table_rows ops raw) raw
