-- ===== src/Jobs/Stamps.antt =====
-- The table over time: what every sequence of statements keeps, and what claims and recoveries
-- alone never do.
use mathlib.Core.List.{Nodup, Nodup-cons}
use lrllm.Prelude.{
  ℕ, ◌≡◌, refl, ap₂, Bool, true, false, String, Option, none, some, List, [], ◌∷◌, map, elem, ◌==◌,
  string_eq, All, ltb, if◌then◌else◌, if_both, not-mem_of_elem,
}
use lrllm.Jobs.Table.{
  JobStatus, pending, running, succeeded, failed, cancelled, JobRow, JobChange, create, updated,
  update, requeued, requeue, where_id, claimed, claim, claim_pending, coalesce, lock_due,
}
use lrllm.Jobs.Claims.{job_ids}
use lrllm.Jobs.Worker.{
  WorkerSettings, timeout_change, retry_at, reclaim_job, reclaim_each, reclaim_stale_jobs,
}

-- One statement on the table, or one recovery pass.
pub data Step (settings : WorkerSettings) : List JobRow → List JobRow → Type 0 where
  created :
      (id kb document : String) (hash : Option String) (now : ℕ) (rows : List JobRow)
      → elem id (job_ids rows) ≡ false
      → Step settings rows (create id kb document hash now rows)
  changed :
      (id : String) (status : JobStatus) (change : JobChange) (now : ℕ) (rows : List JobRow)
      → Step settings rows (update id status change now rows)
  put_back :
      (id : String) (next : ℕ) (rows : List JobRow) → Step settings rows (requeue id next rows)
  claims :
      (limit now : ℕ) (locked : String → Bool) (rows : List JobRow)
      → Step settings rows (claim_pending limit now locked rows).0
  recovers :
      (now : ℕ) (rows : List JobRow) → Step settings rows (reclaim_stale_jobs settings now rows)

pub data Steps (settings : WorkerSettings) : List JobRow → List JobRow → Type 0 where
  stop : (rows : List JobRow) → Steps settings rows rows
  step :
      (rows middle after : List JobRow)
      → Step settings rows middle
      → Steps settings middle after
      → Steps settings rows after

abbrev pub is_set : Option ℕ → Bool
is_set none = false
is_set (some t) = true

-- A running job tells since when, an ended one since when it is over.
abbrev pub stamped : JobRow → Bool
stamped r = elim r.status [
  | pending ↦ true
  | running ↦ is_set r.started_at
  | succeeded ↦ is_set r.finished_at
  | failed ↦ is_set r.finished_at
  | cancelled ↦ is_set r.finished_at
]

pub record IsWellFormed (rows : List JobRow) : Type 0 where
  pub distinct : Nodup (job_ids rows)
  pub stamps : All (λ r. stamped r ≡ true) rows

-- A change of rows that keeps ids, and gives each row its stamps.
record Keeps (f : JobRow → JobRow) : Type 0 where
  same_id : (r : JobRow) → (f r).id ≡ r.id
  keeps : (r : JobRow) → stamped r ≡ true → stamped (f r) ≡ true

ids-changed :
    (f : JobRow → JobRow) (rows : List JobRow) → Keeps f → job_ids (map f rows) ≡ job_ids rows
ids-changed f [] k = refl
ids-changed f (r ∷ rows) k = ap₂ (◌∷◌) (k.same_id r) (ids-changed f rows k)

stamps-changed :
    (f : JobRow → JobRow) (rows : List JobRow)
    → Keeps f
    → All (λ r. stamped r ≡ true) rows
    → All (λ r. stamped r ≡ true) (map f rows)
stamps-changed f [] k h = tt
stamps-changed f (r ∷ rows) k h = (k.keeps r h.0, stamps-changed f rows k h.1)

map-IsWellFormed :
    (f : JobRow → JobRow) (rows : List JobRow)
    → Keeps f
    → IsWellFormed rows
    → IsWellFormed (map f rows)
map-IsWellFormed f rows k w = record {
  distinct = rw (ids-changed f rows k) w.distinct;
  stamps = stamps-changed f rows k w.stamps;
}

Keeps-if : (b : JobRow → Bool) (f : JobRow → JobRow) → Keeps f → Keeps (λ r. if b r then f r else r)
Keeps-if b f k = record {
  same_id = λ r. if_both (λ (x : JobRow). x.id ≡ r.id) (b r) (k.same_id r) refl;
  keeps = λ r h. if_both (λ (x : JobRow). stamped x ≡ true) (b r) (k.keeps r h) h;
}

coalesce-some : (t : Option ℕ) (now : ℕ) → is_set (coalesce t now) ≡ true
coalesce-some none now = refl
coalesce-some (some t) now = refl

updated-Keeps :
    (status : JobStatus) (change : JobChange) (now : ℕ) → Keeps (updated status change now)
unfolding updated
updated-Keeps status change now = record { same_id = λ r. refl; keeps = λ r h. stamps status r }
  where
    stamps : (status : JobStatus) (r : JobRow) → stamped (updated status change now r) ≡ true
    stamps pending r = refl
    stamps running r = coalesce-some r.started_at now
    stamps succeeded r = refl
    stamps failed r = refl
    stamps cancelled r = refl

requeued-Keeps : (next : ℕ) → Keeps (requeued next)
requeued-Keeps next = record { same_id = λ r. refl; keeps = λ r h. refl }

claimed-Keeps : (now : ℕ) → Keeps (claimed now)
claimed-Keeps now = record { same_id = λ r. refl; keeps = λ r h. refl }

update-IsWellFormed :
    (id : String) (status : JobStatus) (change : JobChange) (now : ℕ) (rows : List JobRow)
    → IsWellFormed rows
    → IsWellFormed (update id status change now rows)
unfolding update where_id
update-IsWellFormed id status change now rows w =
    map-IsWellFormed _ rows (Keeps-if (λ r. r.id == id) _ (updated-Keeps status change now)) w

requeue-IsWellFormed :
    (id : String) (next : ℕ) (rows : List JobRow)
    → IsWellFormed rows
    → IsWellFormed (requeue id next rows)
unfolding requeue where_id
requeue-IsWellFormed id next rows w =
    map-IsWellFormed _ rows (Keeps-if (λ r. r.id == id) _ (requeued-Keeps next)) w

module _ (settings : WorkerSettings) where
  reclaim_each-IsWellFormed :
      (now : ℕ) (jobs rows : List JobRow)
      → IsWellFormed rows
      → IsWellFormed (reclaim_each settings now jobs rows)
  unfolding reclaim_each reclaim_job
  reclaim_each-IsWellFormed now [] rows w = w
  reclaim_each-IsWellFormed now (job ∷ jobs) rows w =
      reclaim_each-IsWellFormed now jobs (reclaim_job settings now job rows) (
        if_both IsWellFormed (ltb job.attempt_count settings.max_attempts)
          (requeue-IsWellFormed job.id (retry_at settings now job.attempt_count) rows w)
          (update-IsWellFormed job.id failed timeout_change now rows w))

  Step-IsWellFormed :
      (rows after : List JobRow) → Step settings rows after → IsWellFormed rows → IsWellFormed after
  unfolding create claim_pending claim reclaim_stale_jobs
  Step-IsWellFormed _ _ (created id kb document hash now rows fresh) w = record {
    distinct = Nodup-cons.1 (not-mem_of_elem _ _ fresh, w.distinct);
    stamps = (refl, w.stamps);
  }
  Step-IsWellFormed _ _ (changed id status change now rows) w =
      update-IsWellFormed id status change now rows w
  Step-IsWellFormed _ _ (put_back id next rows) w = requeue-IsWellFormed id next rows w
  Step-IsWellFormed _ _ (claims limit now locked rows) w =
      map-IsWellFormed _ rows
        (Keeps-if (λ r. elem r.id (lock_due limit now locked rows)) _ (claimed-Keeps now)) w
  Step-IsWellFormed _ _ (recovers now rows) w = reclaim_each-IsWellFormed now _ rows w

  -- However creations, updates of any status, requeues, claims and recovery passes follow each
  -- other, no two jobs share an id, every RUNNING job tells when it started, and every job that is
  -- over tells when it ended, if this held at first.
  pub Steps-IsWellFormed :
      (rows after : List JobRow)
      → Steps settings rows after
      → IsWellFormed rows
      → IsWellFormed after
  Steps-IsWellFormed _ _ (stop rows) w = w
  Steps-IsWellFormed _ _ (step rows middle after s rest) w =
      Steps-IsWellFormed middle after rest (Step-IsWellFormed rows middle s w)
