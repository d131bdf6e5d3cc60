-- ===== src/Lib.antt =====
-- Verification library of LRLLM, a retrieval-augmented question answering service with an ingestion
-- pipeline and an agent that runs tools.
--
-- The parts and the files that model them (paths of the program from the repository's root):
-- - Retrieval: app/retrieval/planner.py and filters.py (Retrieval/Planner), hybrid.py
--   (Retrieval/Hybrid for the two recalls, Retrieval/Fusion for rrf_fuse), rerank.py
--   (Retrieval/Rerank, with the rows of app/storage/postgres/repositories/chunk.py in
--   Retrieval/Rows), context/builder.py (Retrieval/Context). A query is planned, recalled from the
--   vector store and the keyword store, fused, reranked, and built into the context of the model:
--   plan, build_metadata_filter, retrieve, rerank and build are the functions of these names.
-- - Jobs: app/storage/postgres/repositories/ingestion_job.py (Jobs/Table: a statement is a function
--   on the list of rows) and workers/ingestion_worker.py (Jobs/Worker, the recovery
--   pass; Ingestion/Worker, a round over the claimed jobs, which run one after the other here).
-- - Tools: app/policy (Tools/Policy), app/tracing/audit.py and app/tools/gate.py (Tools/Gate: the
--   effects of a call on the outside are a list, in order).
-- - Ingestion: app/ingestion/metadata.py (Ingestion/Metadata), chunkers/token_split.py
--   (Ingestion/TokenSplit), chunkers/semantic.py (Ingestion/Semantic), and pipeline.py: its sections
--   (Ingestion/Sections), the rows and points it makes (Ingestion/ChunkRows), what it is given
--   (Ingestion/Services), and process with _handle_failure (Ingestion/Pipeline), stage by stage. The
--   statements of app/storage/postgres/repositories/document.py, section.py and chunk.py that it uses
--   are in Ingestion/Store: the tables are a record of lists, a session is a copy of it, a commit
--   replaces the committed one, and an exception drops the session. Ingestion/ParserChoice is parser_for
--   of app/ingestion/parsers/__init__.py.
-- - Agent: app/agent/runner.py (Agent/Runner for run and _loop, Agent/Messages for what is read off a
--   response, with adapters.py) and app/storage/postgres/repositories/conversation.py
--   (Agent/Conversations). A run is the list of what happens, in order.
-- - Listing: app/api/pagination.py and app/storage/postgres/repositories/_common.py, with the listing
--   of jobs (Listing/Jobs).
-- - Llm: app/llm/parsing.py (Llm/Parsing, the structured output with its one retry), which
--   app/retrieval/evidence.py (Retrieval/Evidence) calls.
-- - Queues: app/services/queue.py, both queues, with the list in Redis as part of the state.
-- - Cleanup: app/services/cleanup_service.py, the search for orphaned points and the retention (Cleanup),
--   and the purge of deleted rows with the statements it runs (Cleanup/Purge).
-- - Core: app/core/errors.py (Core/Errors) and app/core/retry.py (Core/Retry).
-- Each has its proofs in child modules named for what they prove, and its test runs in Examples.
-- Prelude holds what these share: Boolean tests, keys, dicts, selections, stable sorting.
--
-- Conventions: a Python dict is an association list in insertion order; a text that is measured or
-- joined is a list of code points; an id is a text that is a UUID already, but for the agent's set-up,
-- which parses the ids that it is given; floats, token counters, embedding models, stores, rerankers, tool
-- handlers and HTTP calls are outside code and stand as arguments; an exception is a value; times are
-- numbers of the clock, and a statement has one time. Every loop is a structural recursion; of
-- those with a count of rounds, with_retry is given as many rounds as it has attempts, delete_rounds
-- takes the program's limit of batches, the agent's loop takes its budget of steps, and a client of a
-- listing as many requests as there are rows. A statement of the database fails only where the foreign
-- key of a chunk to its section refuses a delete, and a commit only where a flag says so.
--
-- Not modelled: the HTTP interface, configuration, logging and metrics, migrations, the clients of the
-- stores and providers, the document parsers (but for the choice of one) and the semantic splitter, the graph of the agent with its
-- approval, the trace rows, and the services for queries and the wiki.
pub mod Listing
pub mod Agent
pub mod Prelude
pub mod Retrieval
pub mod Core
pub mod Jobs
pub mod Tools
pub mod Ingestion
pub mod Llm
pub mod Queues
pub mod Cleanup
