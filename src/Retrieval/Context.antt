-- ===== src/Retrieval/Context.antt =====
-- app/retrieval/context/builder.py: what is put before the model, and within which budget.
-- `count` is `TokenCounter.count`; the settings are arguments.
pub mod Selection
pub mod Budget
pub mod Format
mod Examples
use lrllm.Prelude.{
  ℕ, zero, suc, ◌+◌, ltb, leb, Bool, true, false, ◌&&◌, not, String, Text, codes, join, Option,
  none, some, List, [], ◌∷◌, ◌++◌, map, ◌==◌, if◌then◌else◌, distinct_from, Dict, dict_get,
  dict_set, is_truthy, is_nonempty, or_text, name_truthy, name_nonempty, elem, length, get_or,
  prepend, group_from, capped_from, string_eq, list_eq, option_eq, pair_eq, ℕ_eq, append_assoc,
}
use lrllm.Retrieval.Models.{RankedChunk}

-- The settings that the builder reads.
pub record ContextSettings : Type 0 where
  pub per_version_cap : ℕ
  pub context_expand_to_parent : Bool
  pub context_token_budget : ℕ

pub record BuiltContext (F : Type 0) : Type 0 where
  pub text : Text
  pub chunks : List (RankedChunk F)
  pub token_count : ℕ

-- `(chunk.product, chunk.version)`
abbrev pub VersionKey : Type 0
VersionKey = Option String × Option String

-- The words that are not empty, among the product and `v` before the version.
abbrev pub label_words : VersionKey → List Text
label_words (product, version) =
    let words : List Text = elim version [
      | none ↦ []
      | some v ↦ if name_nonempty v then (codes "v" ++ codes v) ∷ [] else []
    ] in
    elim product [ none ↦ words | some p ↦ if name_nonempty p then codes p ∷ words else words ]

abbrev pub or_unknown : Text → Text
or_unknown [] = codes "unknown version"
or_unknown (c ∷ cs) = c ∷ cs

-- `f"=== {label or 'unknown version'} ==="`
abbrev pub label : VersionKey → Text
label key = codes "=== " ++ (or_unknown (join (codes " ") (label_words key)) ++ codes " ===")

module _ {F : Type 0} where
  abbrev pub version_key : RankedChunk F → VersionKey
  version_key c = (c.product, c.version)

  -- `_dedup`
  unfoldable pub dedup : List (RankedChunk F) → List (RankedChunk F)
  unfolding distinct_from
  dedup = distinct_from (λ c. c.chunk_id) []

  -- `_body`
  abbrev pub body : RankedChunk F → Bool → Text
  body c expand_to_parent =
      if expand_to_parent
      then or_text c.parent_content (or_text c.raw_content c.text)
      else or_text c.raw_content c.text

  -- The key of `_collapse_to_parents`.
  abbrev pub parent_key : RankedChunk F → Text
  parent_key c = elim c.parent_chunk_id [
    | none ↦ codes "chunk:" ++ codes c.chunk_id
    | some p ↦
        if is_truthy c.parent_content && name_truthy (some p)
        then codes "parent:" ++ codes p
        else codes "chunk:" ++ codes c.chunk_id
  ]

  -- `_collapse_to_parents`
  unfoldable pub collapse_to_parents : List (RankedChunk F) → List (RankedChunk F)
  unfolding distinct_from
  collapse_to_parents = distinct_from parent_key []

  -- `_apply_version_caps`
  unfoldable pub apply_version_caps : List (RankedChunk F) → ℕ → List (RankedChunk F)
  unfolding capped_from dict_get dict_set
  apply_version_caps chunks limit = capped_from version_key limit [] chunks

  -- `replace(chunk, parent_content=None, raw_content=None)`
  abbrev pub own_text_only : RankedChunk F → RankedChunk F
  own_text_only c = record c { parent_content = none; raw_content = none }

  -- The loop of `build` over the budget, from the tokens used so far: what it selects, and the
  -- tokens used in the end.
  unfoldable pub fill : (Text → ℕ) → Bool → ℕ → ℕ → List (RankedChunk F) → List (RankedChunk F) × ℕ
  fill count expand budget used [] = ([], used)
  fill count expand budget used (c ∷ cs) =
      let cost = count (body c expand) in
      let fallback_cost = count c.text in
      let shrunk = prepend (own_text_only c) (fill count expand budget (used + fallback_cost) cs) in
      let whole = prepend c (fill count expand budget (used + cost) cs) in
      if ltb budget (used + cost)
      then if (expand && is_truthy c.parent_content && is_nonempty c.text)
          && leb (used + fallback_cost) budget
        then shrunk
        else ([], used)
      else whole

  -- `f"[{chunk.heading_path}]\n{_body(chunk, expand_to_parent)}"`
  abbrev pub chunk_part : Bool → RankedChunk F → Text
  chunk_part expand c = codes "[" ++ (c.heading_path ++ (codes "]\n" ++ body c expand))

  unfoldable pub group_parts :
      Bool → Bool → Dict VersionKey (List (RankedChunk F)) → List VersionKey → List Text
  group_parts labelled expand groups [] = []
  group_parts labelled expand groups (key ∷ order) =
      let rest = group_parts labelled expand groups order in
      let parts = map (chunk_part expand) (get_or (dict_get key groups) []) ++ rest in
      if labelled then label key ∷ parts else parts

  -- `_format`
  unfoldable pub format : List (RankedChunk F) → Bool → Bool → Text
  unfolding group_from group_parts
  format chunks version_specified expand =
      let (groups, order) = group_from version_key [] [] chunks in
      let multiple_groups = ltb 1 (length order) in
      join (codes "\n\n")
        (group_parts (not version_specified && multiple_groups) expand groups order)

  -- The chunks that `build` offers to the budget.
  unfoldable pub offered : ContextSettings → List (RankedChunk F) → Bool → List (RankedChunk F)
  offered settings ranked version_specified =
      let chunks = dedup ranked in
      let capped =
        if version_specified then chunks else apply_version_caps chunks settings.per_version_cap in
      if settings.context_expand_to_parent then collapse_to_parents capped else capped

  -- `ContextBuilder.build`
  unfoldable pub build : (Text → ℕ) → ContextSettings → List (RankedChunk F) → Bool → BuiltContext F
  unfolding dedup apply_version_caps collapse_to_parents offered fill format
  build count settings ranked version_specified =
      let expand = settings.context_expand_to_parent in
      let (selected, total) =
        fill count expand settings.context_token_budget 0
          (offered settings ranked version_specified) in
      record {
        text = format selected version_specified expand;
        chunks = selected;
        token_count = total;
      }
