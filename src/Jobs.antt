-- ===== src/Jobs.antt =====
-- app/domain/ingestion/models.py, app/storage/postgres/repositories/ingestion_job.py and
-- workers/ingestion_worker.py: the table of ingestion jobs, its statements, and the recovery of
-- jobs whose worker died. A statement takes the time of its transaction as an argument.
pub mod Table
pub mod Worker
pub mod Claims
pub mod Recovery
pub mod Stamps
pub mod Crashes
mod Examples
