-- ===== src/Retrieval/Context/Format.antt =====
-- The text of the context: the chunks by version, in the order of the versions' first chunks.
use lrllm.Prelude.{
  ◌≡◌, refl, ap, ◌∙◌, Bool, true, false, ◌&&◌, not, Text, codes, join, List, [], ◌∷◌, ◌++◌, map,
  if◌then◌else◌, ltb, length, distinct_from, get_or, Dict, dict_get, with_key, group_from,
  get-group_from, order-group_from, string_eq, option_eq, pair_eq,
}
use lrllm.Retrieval.Models.{RankedChunk}
use lrllm.Retrieval.Context.{VersionKey, version_key, label, chunk_part, group_parts, format}

module _ {F : Type 0} where
  -- The versions among some chunks, each once, by first appearance.
  abbrev pub versions : List (RankedChunk F) → List VersionKey
  versions chunks = map version_key (distinct_from version_key [] chunks)

  -- For each of these versions, its label if wanted, then the parts of its chunks.
  abbrev pub parts_by_version : Bool → Bool → List (RankedChunk F) → List VersionKey → List Text
  parts_by_version labelled expand chunks [] = []
  parts_by_version labelled expand chunks (k ∷ ks) =
      (if labelled then label k ∷ [] else [])
      ++ (map (chunk_part expand) (with_key version_key k chunks)
          ++ parts_by_version labelled expand chunks ks)

  group_parts-eq :
      (labelled expand : Bool) (chunks : List (RankedChunk F))
      (groups : Dict VersionKey (List (RankedChunk F))) (ks : List VersionKey)
      → ((k : VersionKey) → get_or (dict_get k groups) [] ≡ with_key version_key k chunks)
      → group_parts labelled expand groups ks ≡ parts_by_version labelled expand chunks ks
  unfolding group_parts
  group_parts-eq labelled expand chunks groups [] h = refl
  group_parts-eq true expand chunks groups (k ∷ ks) h =
      rw (h k, group_parts-eq true expand chunks groups ks h)
  group_parts-eq false expand chunks groups (k ∷ ks) h =
      rw (h k, group_parts-eq false expand chunks groups ks h)

  -- The formatted context joins, version by version in the order of first appearance, the parts of
  -- all chunks of that version in order, each version under its label exactly when the user gave
  -- none and there are several.
  pub format_lem :
      (chunks : List (RankedChunk F)) (specified expand : Bool)
      → format chunks specified expand
        ≡ join (codes "\n\n") (
            parts_by_version
              (not specified && ltb 1 (length (versions chunks)))
              expand
              chunks
              (versions chunks))
  unfolding format dict_get
  format_lem chunks specified expand =
      let (groups, order) = group_from version_key [] [] chunks in
      let in_order : order ≡ versions chunks =
        order-group_from version_key [] [] chunks (λ k. refl) in
      ap
        (λ ks.
          join (codes "\n\n") (group_parts (not specified && ltb 1 (length ks)) expand groups ks))
        in_order
      ∙ ap (join (codes "\n\n")) (
          group_parts-eq _ expand chunks groups (versions chunks)
            (λ k. get-group_from version_key k [] [] chunks))
