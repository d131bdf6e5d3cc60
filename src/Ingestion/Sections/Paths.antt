-- ===== src/Ingestion/Sections/Paths.antt =====
-- The parents of the sections, and the search of a chunk's section by its heading path.
use lrllm.Prelude.{
  ℕ, zero, suc, ◌≤◌, ◌<◌, ◌≡◌, refl, ◌∙◌, ap, ap₂, inl, inr, Text, String, Option, none, some, List,
  [], ◌∷◌, map, select, length, take, leb, ◌==◌, ℕ_eq, list_eq, if◌then◌else◌, Dict, dict_get,
  dict_set, get-set, arith, Bool-cases, Option-cases,
}
use lrllm.Ingestion.Semantic.{AstBlock}
use lrllm.Ingestion.Sections.{
  is_heading, last_line, parent_path, sections_from, next_sibling, build_sections, find_from_depth,
  find_section_id,
}
use lrllm.Ingestion.Sections.Siblings.{line_ends, build_sections-line_ends}

-- The index of the last heading that has a path, the paths of the headings so far being given from
-- the last one back.
abbrev last_with : List Text → List (List Text) → Option ℕ
last_with path [] = none
last_with path (p ∷ earlier) = if path == p then some (length earlier) else last_with path earlier

abbrev pub parents : List (List Text) → List AstBlock → List (Option ℕ)
parents earlier [] = []
parents earlier (b ∷ bs) =
    last_with (parent_path b.heading_path) earlier ∷ parents (b.heading_path ∷ earlier) bs

abbrev IsIndex : Dict (List Text) ℕ → List (List Text) → Type 0
IsIndex path_index earlier = (p : List Text) → dict_get p path_index ≡ last_with p earlier

sections_from-parents :
    (doc : String) (headings : List AstBlock) (next : List (Option ℕ)) (last order : ℕ)
    (path_index : Dict (List Text) ℕ) (earlier : List (List Text)) (bs : List AstBlock)
    → IsIndex path_index earlier
    → order ≡ length earlier
    → map (λ s. s.parent_offset) (sections_from doc headings next last order path_index bs)
      ≡ parents earlier bs
unfolding sections_from
sections_from-parents doc headings next last order path_index earlier [] h e = refl
sections_from-parents doc headings next last order path_index earlier (b ∷ bs) h e =
    let path = b.heading_path in
    let after : IsIndex (dict_set path order path_index) (path ∷ earlier) =
      λ p. get-set path p order path_index ∙ rw (h p, e) refl in
    ap₂ (◌∷◌) (h (parent_path path)) (
      sections_from-parents doc headings next last (suc order) (dict_set path order path_index)
        (path ∷ earlier) bs after (ap suc e))

-- The sections of a document end where a search from each heading says: on the line before the next
-- heading whose level is not deeper than its own, or on the last line of the document. The parent
-- of each is the last heading before it whose path is its own less the last entry, if there is one.
pub build_sections_lem :
    (blocks : List AstBlock) (document_id : String)
    → (map (λ s. s.section.line_end) (build_sections blocks document_id)
        ≡ line_ends (last_line blocks) (select (λ b. is_heading b.type) blocks))
      × (map (λ s. s.parent_offset) (build_sections blocks document_id)
          ≡ parents [] (select (λ b. is_heading b.type) blocks))
unfolding build_sections dict_get
build_sections_lem blocks document_id =
    let headings = select (λ b. is_heading b.type) blocks in
    (
      build_sections-line_ends blocks document_id,
      sections_from-parents document_id headings (next_sibling headings) (last_line blocks) 0 [] []
          headings (λ p. refl) refl,
    )

module _ (path : List Text) (by_path : Dict (List Text) String) where
  abbrev FiledUpTo : ℕ → Option String → Type 0
  FiledUpTo top none = (d : ℕ) → 1 ≤ d → d ≤ top → dict_get (take d path) by_path ≡ none
  FiledUpTo top (some id) =
      (d : ℕ) × (1 ≤ d)
      × (d ≤ top)
      × (dict_get (take d path) by_path ≡ some id)
      × ((k : ℕ) → d < k → k ≤ top → dict_get (take k path) by_path ≡ none)

  -- What a search from the whole path up to its first entry finds: no prefix has a section, or the
  -- section of the longest prefix that has one.
  abbrev pub IsDeepest : Option String → Type 0
  IsDeepest r = FiledUpTo (length path) r

  FiledUpTo-miss :
      (depth : ℕ) (r : Option String)
      → dict_get (take (suc depth) path) by_path ≡ none
      → FiledUpTo depth r
      → FiledUpTo (suc depth) r
  FiledUpTo-miss depth none h f = λ d low high. elim (Bool-cases (leb d depth)) [
    | inl e ↦ f d low (ground (arith, e))
    | inr e ↦ let at : d ≡ suc depth = ground (arith, e, high) in rw at h
  ]
  FiledUpTo-miss depth (some id) h (d, low, high, found, none_above) =
      (d, low, omega (arith, high), found, above)
    where
      above : (k : ℕ) → d < k → k ≤ suc depth → dict_get (take k path) by_path ≡ none
      above k lt le = elim (Bool-cases (leb k depth)) [
        | inl e ↦ none_above k lt (ground arith)
        | inr e ↦ let at : k ≡ suc depth = ground arith in rw at h
      ]

  find_from_depth-FiledUpTo : (depth : ℕ) → FiledUpTo depth (find_from_depth depth path by_path)
  unfolding find_from_depth
  find_from_depth-FiledUpTo zero = λ d low high. ground (arith, low, high)
  find_from_depth-FiledUpTo (suc depth) =
      elim (Option-cases (dict_get (take (suc depth) path) by_path)) [
        | inl e ↦
            rw (e, find_from_depth) (FiledUpTo-miss depth _ e (find_from_depth-FiledUpTo depth))
        | inr (id, e) ↦
            rw (e, find_from_depth)
              (suc depth, omega arith, omega arith, e, (λ k lt le. ground (arith, lt, le)))
      ]

  -- A chunk is filed under the section of the longest prefix of its heading path that has one, and
  -- under none only if no prefix but the empty one has a section.
  pub find_section_id-IsDeepest : IsDeepest (find_section_id path by_path)
  unfolding find_section_id
  find_section_id-IsDeepest = find_from_depth-FiledUpTo (length path)
