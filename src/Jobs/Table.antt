-- ===== src/Jobs/Table.antt =====
-- app/storage/postgres/repositories/ingestion_job.py: the rows and the statements on them. Times
-- are numbers of the clock; the rows are in an order that the database is free to choose.
use lrllm.Prelude.{
  ℕ, Bool, true, false, not, ◌&&◌, ◌||◌, String, Option, none, some, List, ◌∷◌, map, get_elem?,
  select, take, ltb, leb, elem, ◌==◌, string_eq, option_eq, sort_desc, if◌then◌else◌, get_or,
}

-- `JobStatus`
pub data JobStatus : Type 0 where
  pending running succeeded failed cancelled : JobStatus

abbrev pub is_pending : JobStatus → Bool
is_pending pending = true
is_pending _ = false

abbrev pub is_running : JobStatus → Bool
is_running running = true
is_running _ = false

-- `status in (SUCCEEDED, FAILED, CANCELLED)`
abbrev pub is_terminal : JobStatus → Bool
is_terminal pending = false
is_terminal running = false
is_terminal _ = true

-- `IngestionJobRow`, less the columns of the parser, which no statement here touches.
pub record JobRow : Type 0 where
  pub id : String
  pub knowledge_base_id : String
  pub document_id : String
  pub status : JobStatus
  pub stage : Option String
  pub content_hash : Option String
  pub section_count : Option ℕ
  pub chunk_count : Option ℕ
  pub embedding_count : Option ℕ
  pub error_code : Option String
  pub error_message : Option String
  pub attempt_count : ℕ
  pub next_attempt_at : Option ℕ
  pub created_at : ℕ
  pub started_at : Option ℕ
  pub finished_at : Option ℕ

-- The optional arguments of `update`.
pub record JobChange : Type 0 where
  pub stage : Option String
  pub section_count : Option ℕ
  pub chunk_count : Option ℕ
  pub embedding_count : Option ℕ
  pub error_code : Option String
  pub error_message : Option String
  pub attempt_count : Option ℕ
  pub next_attempt_at : Option ℕ

-- `update` called with a status alone.
abbrev pub no_change : JobChange
no_change = record {
  stage = none;
  section_count = none;
  chunk_count = none;
  embedding_count = none;
  error_code = none;
  error_message = none;
  attempt_count = none;
  next_attempt_at = none;
}

-- A column that a statement sets only if its argument is given.
abbrev pub given {ℓ} : {A : Type ℓ} → Option A → Option A → Option A
given none old = old
given (some a) old = some a

-- `UPDATE ... WHERE id = ...`
unfoldable pub where_id : String → (JobRow → JobRow) → List JobRow → List JobRow
where_id id f = map (λ r. if r.id == id then f r else r)

-- `create`: the database gives the id and the time.
abbrev pub new_row : String → String → String → Option String → ℕ → JobRow
new_row id kb document hash now = record {
  id = id;
  knowledge_base_id = kb;
  document_id = document;
  status = pending;
  stage = none;
  content_hash = hash;
  section_count = none;
  chunk_count = none;
  embedding_count = none;
  error_code = none;
  error_message = none;
  attempt_count = 0;
  next_attempt_at = none;
  created_at = now;
  started_at = none;
  finished_at = none;
}

unfoldable pub create : String → String → String → Option String → ℕ → List JobRow → List JobRow
create id kb document hash now rows = new_row id kb document hash now ∷ rows

-- `coalesce(started_at, now())`
abbrev pub coalesce : Option ℕ → ℕ → Option ℕ
coalesce none now = some now
coalesce (some t) now = some t

-- The values that `update` sets on a row.
unfoldable pub updated : JobStatus → JobChange → ℕ → JobRow → JobRow
updated status c now r = record r {
  status = status;
  stage = given c.stage r.stage;
  section_count = given c.section_count r.section_count;
  chunk_count = given c.chunk_count r.chunk_count;
  embedding_count = given c.embedding_count r.embedding_count;
  error_code = given c.error_code r.error_code;
  error_message = elim c.error_code [ none ↦ r.error_message | some _ ↦ c.error_message ];
  attempt_count = get_or c.attempt_count r.attempt_count;
  next_attempt_at = given c.next_attempt_at r.next_attempt_at;
  started_at = if is_running status then coalesce r.started_at now else r.started_at;
  finished_at = if is_terminal status then some now else r.finished_at;
}

-- `IngestionJobRepository.update`
unfoldable pub update : String → JobStatus → JobChange → ℕ → List JobRow → List JobRow
update id status change now = where_id id (updated status change now)

-- `requeue`
abbrev pub requeued : ℕ → JobRow → JobRow
requeued next r = record r { status = pending; next_attempt_at = some next; started_at = none }

unfoldable pub requeue : String → ℕ → List JobRow → List JobRow
requeue id next = where_id id (requeued next)

-- `next_attempt_at IS NULL OR next_attempt_at <= now`
abbrev pub reached : ℕ → Option ℕ → Bool
reached now none = true
reached now (some t) = leb t now

-- The condition of `list_pending` and `claim_pending`.
abbrev pub is_due : ℕ → JobRow → Bool
is_due now r = is_pending r.status && reached now r.next_attempt_at

-- `ORDER BY key`, ascending, then `LIMIT`.
unfoldable pub first_by : (JobRow → ℕ) → ℕ → List JobRow → List JobRow
first_by key limit rows = take limit (sort_desc (λ a b. ltb a b) key rows)

-- `list_pending`
unfoldable pub list_pending : ℕ → ℕ → List JobRow → List JobRow
list_pending limit now rows = first_by (λ r. r.created_at) limit (select (is_due now) rows)

abbrev pub claimed : ℕ → JobRow → JobRow
claimed now r = record r { status = running; started_at = some now }

-- The rows that `SELECT ... FOR UPDATE SKIP LOCKED` finds and locks; `locked` tells the rows that
-- other transactions hold.
unfoldable pub lock_due : ℕ → ℕ → (String → Bool) → List JobRow → List String
lock_due limit now locked rows =
    map (λ r. r.id)
      (first_by (λ r. r.created_at) limit (select (λ r. is_due now r && not (locked r.id)) rows))

-- The `UPDATE ... WHERE id IN (due) RETURNING id`.
unfoldable pub claim : ℕ → List String → List JobRow → List JobRow
claim now due = map (λ r. if elem r.id due then claimed now r else r)

-- `claim_pending`: the table afterwards, and the ids that it returns.
unfoldable pub claim_pending : ℕ → ℕ → (String → Bool) → List JobRow → List JobRow × List String
claim_pending limit now locked rows =
    let due = lock_due limit now locked rows in
    (claim now due rows, map (λ r. r.id) (select (λ r. elem r.id due) rows))

-- `started_at IS NOT NULL AND started_at < cutoff`
abbrev pub started_before : ℕ → Option ℕ → Bool
started_before cutoff none = false
started_before cutoff (some t) = ltb t cutoff

abbrev pub is_stale : ℕ → JobRow → Bool
is_stale cutoff r = is_running r.status && started_before cutoff r.started_at

-- `list_stale_running`
unfoldable pub list_stale_running : ℕ → ℕ → List JobRow → List JobRow
list_stale_running cutoff limit rows =
    first_by (λ r. get_or r.started_at 0) limit (select (is_stale cutoff) rows)

-- `find_active`: the latest job of a document that is pending or running.
unfoldable pub find_active : String → List JobRow → Option JobRow
find_active document rows =
    get_elem?
      (sort_desc (λ a b. ltb b a) (λ r. r.created_at)
        (select (λ r. r.document_id == document && (is_pending r.status || is_running r.status))
          rows))
      0
