-- ===== src/Retrieval/Context/Examples.antt =====
-- Runs of the context builder, with the number of code points for the token count.
use mathlib.Core.List.{Nodup, Sublist}
use lrllm.Prelude.{
  ℕ, ◌≡◌, refl, true, false, codes, Text, String, none, some, Option, List, [], ◌∷◌, map, length,
  first_with, with_key, take, join, distinct_from, string_eq, list_eq, option_eq, pair_eq, ℕ_eq,
}
use lrllm.Retrieval.Models.{RankedChunk}
use lrllm.Retrieval.Context.{
  ContextSettings, VersionKey, version_key, dedup, collapse_to_parents, apply_version_caps, build,
  offered, format,
}
use lrllm.Retrieval.Context.Selection.{
  Block, block_eq, block_of, id_of, dedup_lem, apply_version_caps_lem, collapse_to_parents_lem,
}
use lrllm.Retrieval.Context.Budget.{IsFilled, build_lem}
use lrllm.Retrieval.Context.Format.{versions, parts_by_version, format_lem}

abbrev hit : String → String → Option String → Option Text → RankedChunk ℕ
hit id text parent parent_text = record {
  chunk_id = id;
  document_id = "d";
  text = codes text;
  score = 0;
  heading_path = codes "H";
  line_start = 1;
  line_end = 2;
  chunk_type = "TEXT";
  raw_content = none;
  parent_chunk_id = parent;
  parent_content = parent_text;
  product = some "p";
  version = some id;
  sub_query_id = none;
}

abbrev hits : List (RankedChunk ℕ)
hits =
    hit "a" "one" none none
    ∷ hit "b" "two" (some "q") (some (codes "two and three"))
    ∷ hit "a" "one" none none
    ∷ hit "c" "three" (some "q") (some (codes "two and three"))
    ∷ []

abbrev settings : ContextSettings
settings = record {
  per_version_cap = 2;
  context_expand_to_parent = true;
  context_token_budget = 10;
}

-- The second chunk stands by its own text: its parent's is over the budget.
runs : (build length settings hits false).token_count ≡ 6
unfolding build
runs = refl

formatted :
    (build length settings hits false).text
    ≡ codes "=== p va ===\n\n[H]\none\n\n=== p vb ===\n\n[H]\ntwo"
unfolding build
formatted = refl

dedup_lem_example :
    Nodup (map id_of (dedup hits))
    × Sublist (dedup hits) hits
    × ((id : String) → first_with id_of id (dedup hits) ≡ first_with id_of id hits)
dedup_lem_example = dedup_lem hits

apply_version_caps_lem_example :
    Sublist (apply_version_caps hits 1) hits
    × ((k : VersionKey)
        → with_key version_key k (apply_version_caps hits 1) ≡ take 1 (with_key version_key k hits))
apply_version_caps_lem_example = apply_version_caps_lem hits 1

collapse_to_parents_lem_example :
    Nodup (map block_of (collapse_to_parents hits))
    × Sublist (collapse_to_parents hits) hits
    × ((x : Block) → first_with block_of x (collapse_to_parents hits) ≡ first_with block_of x hits)
collapse_to_parents_lem_example = collapse_to_parents_lem hits

build_lem_example :
    let built = build length settings hits false in
    IsFilled length true 10 0 (offered settings hits false) (built.chunks, built.token_count)
    × Nodup (map id_of built.chunks)
build_lem_example = build_lem length settings hits false

format_lem_example :
    format hits false true ≡ join (codes "\n\n") (parts_by_version true true hits (versions hits))
unfolding distinct_from
format_lem_example = format_lem hits false true
