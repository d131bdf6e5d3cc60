-- ===== src/Ingestion/Pipeline/Examples.antt =====
-- Runs of the pipeline: a document of one section and one paragraph, with an embedding model that
-- fails at first.
use lrllm.Prelude.{
  ℕ, ◌≡◌, refl, true, false, not, codes, none, some, List, [], ◌∷◌, ◌++◌, map, select, elem,
  string_eq, get_elem?, get_or, arith, sort_desc,
}
use lrllm.Jobs.Table.{
  JobStatus, JobRow, pending, succeeded, new_row, where_id, updated, lock_due, first_by, claim,
}
use lrllm.Ingestion.Semantic.{heading, AstBlock, SemanticChunk, text_chunk}
use lrllm.Ingestion.Sections.{find_section_id}
use lrllm.Ingestion.Store.{DocumentStatus, DocumentRow, Db, get_job, get_document}
use lrllm.Ingestion.ChunkRows.{VectorPoint, to_chunk}
use lrllm.Ingestion.Services.{
  Fault, other_error, Reply, done, fault, DocumentAst, Services, PipelineSettings,
}
use lrllm.Ingestion.Worker.{claim_round}
use lrllm.Ingestion.Pipeline.{Processed, process}
use lrllm.Ingestion.Pipeline.Outcomes.{IsOutcome, process-IsOutcome}
use lrllm.Ingestion.Pipeline.Attempts.{process_again, IsSettled, process_again-IsSettled}
use lrllm.Ingestion.Pipeline.Stuck.{AreNamed, SameRows, process-Raises}

abbrev block : AstBlock
block = record {
  type = heading;
  content = codes "A";
  line_start = 1;
  line_end = 1;
  level = some 1;
  heading_path = codes "A" ∷ [];
}

abbrev chunk : SemanticChunk
chunk = record {
  text = codes "text";
  chunk_type = text_chunk;
  heading_path = codes "A" ∷ [];
  line_start = 2;
  line_end = 2;
  token_count = 4;
  raw_content = none;
}

abbrev ast : DocumentAst
ast = record {
  explicit = ("product", "router") ∷ [];
  front_matter = [];
  title = none;
  blocks = block ∷ [];
}

abbrev Index : Type 0
Index = List (VectorPoint ℕ)

abbrev services : Reply (List ℕ) → Services ℕ Index
services vectors = record {
  select_parser = λ content hint. record { version = "md-1"; parse = λ content. done ast };
  chunker_version = "c-1";
  chunk = λ blocks. done (chunk ∷ []);
  chunk_with_parents = λ blocks n. done (record { parent = some chunk; child = chunk } ∷ []);
  model_name = "m";
  model_version = "m-1";
  embed_documents = λ texts. vectors;
  delete = λ ids points. (select (λ p. not (elem p.chunk_id ids)) points, done tt);
  upsert = λ new points. (points ++ new, done tt);
  string_ops = record { strip = λ s. s; match_version = λ s. none; stem = λ s. s };
  conflict_message = λ fs. "conflict";
  sha256 = λ t. t;
  identity = λ c. c.line_start;
  new_id = λ n. get_or (get_elem? ("r0" ∷ "r1" ∷ "r2" ∷ []) n) "r";
}

abbrev works : Services ℕ Index
works = services (done (7 ∷ []))

abbrev fails : Services ℕ Index
fails = services (fault (other_error "timeout"))

abbrev settings : PipelineSettings
settings = record {
  context_expand_to_parent = true;
  parent_chunk_tokens = 40;
  max_attempts = 3;
  retry_backoff = 30;
}

abbrev document : DocumentRow
document = record {
  id = "d";
  knowledge_base_id = "kb";
  title = "Guide";
  doc_class = none;
  source = none;
  product = none;
  version = none;
  content = codes "content";
  content_hash = "h";
  parser_version = none;
  chunker_version = none;
  embedding_model = none;
  embedding_model_version = none;
  processing_fingerprint = none;
  status = DocumentStatus.pending;
  error_code = none;
  error_message = none;
  updated_at = 0;
  deleted_at = none;
}

abbrev tables : Db
tables = record {
  jobs = new_row "j" "kb" "d" none 0 ∷ [];
  documents = document ∷ [];
  sections = [];
  chunks = [];
  ids_given = 0;
}

abbrev first_run : Processed Index
first_run = process fails settings 100 "j" tables []

abbrev second_run : Processed Index
second_run = process works settings 200 "j" first_run.db first_run.points

indexes_chunk : map (λ p. p.chunk_id) (process works settings 100 "j" tables []).points ≡ "r2" ∷ []
unfolding process
indexes_chunk = refl

abbrev status_of : Db → List JobStatus
status_of db = map (λ j. j.status) db.jobs

-- A failure of the embedding model is transient: the job is put back.
retries_embedding : status_of first_run.db ≡ pending ∷ []
unfolding process where_id updated
retries_embedding = refl

-- But its second run fails for good, though the model works again: the chunks of the first run
-- still name the section that the second one deletes.
fails_again : status_of second_run.db ≡ JobStatus.failed ∷ []
unfolding process where_id updated find_section_id
fails_again = refl

abbrev job : JobRow
job = new_row "j" "kb" "d" none 0

finds_job : get_job "j" tables ≡ some job
unfolding get_job
finds_job = refl

finds_document : get_document "d" tables ≡ some document
unfolding get_document
finds_document = refl

process-IsOutcome_example :
    IsOutcome "j" 1 works settings 100 "d" tables [] (process works settings 100 "j" tables [])
process-IsOutcome_example =
    process-IsOutcome "j" 1 works settings 100 tables [] job document finds_job finds_document refl

abbrev calls : List (Services ℕ Index × ℕ)
calls = (fails, 100) ∷ (works, 200) ∷ (works, 300) ∷ []

process_again-IsSettled_example : IsSettled "j" (process_again settings "j" calls tables []).0
process_again-IsSettled_example =
    process_again-IsSettled settings "j" calls tables [] job document finds_job refl finds_document
      (omega arith) (omega arith)

-- The tables with a chunk and the section that it names.
abbrev leftover : Db
leftover = record tables {
  sections =
      record {
        id = "s";
        parent_section_id = none;
        section = record {
          document_id = "d";
          heading = codes "A";
          heading_path = codes "A";
          level = 1;
          section_order = 0;
          line_start = 1;
          line_end = 2;
        };
      }
      ∷ [];
  chunks =
      record {
        id = "c";
        chunk =
            to_chunk
              (record {
                document_id = "d";
                knowledge_base_id = "kb";
                product = none;
                version = none;
                by_path = (codes "A" ∷ [], "s") ∷ [];
              })
              0 none none false none chunk;
        deleted_at = none;
      }
      ∷ [];
}

job_of_leftover : get_job "j" leftover ≡ some job
unfolding get_job
job_of_leftover = refl

document_of_leftover : get_document "d" leftover ≡ some document
unfolding get_document
document_of_leftover = refl

names_leftover : AreNamed "d" leftover
unfolding find_section_id
names_leftover = refl

process-Raises_example :
    ((f : Fault) × ((process works settings 100 "j" leftover []).reply ≡ fault f))
    × SameRows leftover (process works settings 100 "j" leftover []).db
process-Raises_example =
    process-Raises leftover works settings 100 "j" [] job document job_of_leftover
      document_of_leftover refl names_leftover

-- A round of the worker claims the job and completes it.
abbrev after_round : Db × Index
after_round = claim_round works settings 100 4 (λ id. false) tables []

round_succeeds : status_of after_round.0 ≡ succeeded ∷ []
unfolding claim_round where_id updated find_section_id lock_due first_by sort_desc claim
round_succeeds = refl
