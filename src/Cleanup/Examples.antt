-- ===== src/Cleanup/Examples.antt =====
-- Runs of the clean-up: three points, of which one has no chunk, and two retentions.
use lrllm.Ingestion.Semantic.{text_chunk}
use lrllm.Ingestion.Store.{StoredChunk, Db}
use lrllm.Cleanup.Purge.{purge_chunks}
use lrllm.Prelude.{
  Bool, true, false, Option, none, some, ◌≡◌, refl, String, List, [], ◌∷◌, min, leb, ◌*◌,
  if◌then◌else◌,
}
use lrllm.Cleanup.{reconcile_orphans, purge_old, max_retention_batches}
use lrllm.Cleanup.Retention.{purge_old_lem}
use lrllm.Cleanup.Orphans.{unknown, all_ids, reconcile_orphans_lem}

abbrev points : List String
points = "a" ∷ "x" ∷ "c" ∷ []

abbrev batches : List (List String)
batches = ("a" ∷ "b" ∷ []) ∷ ("c" ∷ []) ∷ []

finds_orphan : reconcile_orphans points batches ≡ "x" ∷ []
unfolding reconcile_orphans
finds_orphan = refl

reconcile_orphans_lem_example : reconcile_orphans points batches ≡ unknown points (all_ids batches)
reconcile_orphans_lem_example = reconcile_orphans_lem points batches

keeps_all : purge_old max_retention_batches 0 10 700 ≡ 0
unfolding purge_old
keeps_all = refl

stops_after_fifty : purge_old max_retention_batches 30 10 700 ≡ 500
unfolding purge_old
stops_after_fifty = refl

purge_old_lem_example :
    purge_old max_retention_batches 30 10 700
    ≡ (if leb 30 0 then 0 else min (max_retention_batches * 10) 700)
purge_old_lem_example = purge_old_lem max_retention_batches 30 10 700

-- Two deleted chunks, of which one is the parent of the other.
abbrev deleted_chunk : String → Bool → Option String → StoredChunk
deleted_chunk id is_parent parent = record {
  id = id;
  chunk = record {
    document_id = "d";
    section_id = none;
    knowledge_base_id = "kb";
    text = [];
    raw_content = none;
    heading_path = [];
    line_start = 1;
    line_end = 1;
    chunk_index = 0;
    token_count = 0;
    chunk_type = text_chunk;
    is_parent = is_parent;
    parent_chunk_id = parent;
    product = none;
    version = none;
    embedding_model = none;
    embedding_model_version = none;
  };
  deleted_at = some 3;
}

abbrev tables : Db
tables = record {
  jobs = [];
  documents = [];
  sections = [];
  chunks = deleted_chunk "p" true none ∷ deleted_chunk "c" false (some "p") ∷ [];
  ids_given = 0;
}

-- A batch with the parent alone removes the row of the child too, but not its point.
leaves_orphan :
    purge_chunks 1 false tables ("c" ∷ []) ≡ some (record tables { chunks = [] }, "c" ∷ [], 1)
unfolding purge_chunks
leaves_orphan = refl
