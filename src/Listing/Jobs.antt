-- ===== src/Listing/Jobs.antt =====
-- `list` of app/storage/postgres/repositories/ingestion_job.py, a listing of jobs by their document,
-- status and knowledge base.
use lrllm.Prelude.{ℕ, Bool, true, false, ◌&&◌, String, Option, none, some, List, ◌==◌, string_eq}
use lrllm.Jobs.Table.{JobStatus, pending, running, succeeded, failed, cancelled, JobRow}
use lrllm.Listing.{Keyset, list_page}

abbrev pub same_status : JobStatus → JobStatus → Bool
same_status pending pending = true
same_status running running = true
same_status succeeded succeeded = true
same_status failed failed = true
same_status cancelled cancelled = true
same_status _ _ = false

-- A condition that a filter adds if it is given.
abbrev pub matches {ℓ} : {A : Type ℓ} → (A → Bool) → Option A → Bool
matches p none = true
matches p (some a) = p a

-- The conditions of `list`.
abbrev pub job_filter : Option String → Option JobStatus → Option String → JobRow → Bool
job_filter document_id status kb r =
    matches (λ k. r.knowledge_base_id == k) kb
    && matches (λ d. r.document_id == d) document_id
    && matches (λ s. same_status r.status s) status

-- `IngestionJobRepository.list`
unfoldable pub list_jobs :
    (String → ℕ)
    → Option String
    → Option JobStatus
    → ℕ
    → Option Keyset
    → Option String
    → List JobRow
    → List JobRow × Bool
unfolding list_page
list_jobs uuid document_id status limit cursor kb =
    list_page (λ r. r.created_at) (λ r. r.id) uuid (job_filter document_id status kb) limit cursor
