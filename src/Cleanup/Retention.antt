-- ===== src/Cleanup/Retention.antt =====
-- The number of rows that a pass of the retention deletes.
use lrllm.Prelude.{
  ℕ, zero, suc, ◌-◌, ◌*◌, ◌≡◌, refl, arith, Bool-cases, inl, inr, if◌then◌else◌, min, leb,
}
use lrllm.Cleanup.{delete_rounds, purge_old}

delete_rounds_lem :
    (rounds batch_size old : ℕ)
    → delete_rounds rounds batch_size old ≡ min (rounds * batch_size) old
unfolding delete_rounds
delete_rounds_lem zero batch_size old = omega arith
delete_rounds_lem (suc rounds) batch_size old =
    ground (arith, delete_rounds_lem rounds batch_size (old - min batch_size old))

-- One pass of the retention deletes no row where the retention is 0 days, and otherwise all rows that
-- are older, or as many of them as the limit of batches holds if there are more.
pub purge_old_lem :
    (rounds retention_days batch_size old : ℕ)
    → purge_old rounds retention_days batch_size old
      ≡ (if leb retention_days 0 then 0 else min (rounds * batch_size) old)
unfolding purge_old
purge_old_lem rounds retention_days batch_size old = elim (Bool-cases (leb retention_days 0)) [
  | inl kept ↦ rw kept refl
  | inr finite ↦ rw finite (delete_rounds_lem rounds batch_size old)
]
