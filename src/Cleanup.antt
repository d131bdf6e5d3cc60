-- ===== src/Cleanup.antt =====
-- app/services/cleanup_service.py: the search for vector points without a chunk, and the bounded
-- deletion of old rows. The ids of the points and the batches of chunk ids come from the stores.
pub mod Purge
pub mod Orphans
pub mod Retention
mod Examples
use lrllm.Prelude.{
  ℕ, zero, suc, ◌+◌, ◌-◌, Bool, true, false, not, String, List, [], ◌∷◌, ◌++◌, select, all_of, elem,
  string_eq, ltb, leb, if◌then◌else◌, min,
}

-- The loop over the batches of chunk ids: it stops once every point is known.
unfoldable pub load_known : List String → List String → List (List String) → List String
load_known points known [] = known
load_known points known (batch ∷ batches) =
    let more = known ++ batch in
    let rest = load_known points more batches in
    if all_of (λ p. elem p more) points then more else rest

-- `reconcile_orphans`: the points that it deletes; without points it does nothing.
unfoldable pub reconcile_orphans : List String → List (List String) → List String
unfolding load_known
reconcile_orphans points batches =
    let known = load_known points [] batches in select (λ p. not (elem p known)) points

-- `_delete_batches`, by the rows that are old enough: each round deletes up to
-- `batch_size` of them; it gives the number of deleted rows.
unfoldable pub delete_rounds : ℕ → ℕ → ℕ → ℕ
delete_rounds zero batch_size old = 0
delete_rounds (suc rounds) batch_size old =
    let batch = min batch_size old in
    let rest = delete_rounds rounds batch_size (old - batch) in
    if ltb batch batch_size then batch else batch + rest

-- `_MAX_RETENTION_BATCHES`
abbrev pub max_retention_batches : ℕ
max_retention_batches = 50

-- `_purge_traces` and `_purge_audit_logs`, by the limit of batches, the days of retention, where 0
-- keeps all rows, and the number of rows that are older.
unfoldable pub purge_old : ℕ → ℕ → ℕ → ℕ → ℕ
unfolding delete_rounds
purge_old rounds retention_days batch_size old =
    let deleted = delete_rounds rounds batch_size old in if leb retention_days 0 then 0 else deleted
