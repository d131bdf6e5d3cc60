-- ===== src/Ingestion/Sections/Examples.antt =====
-- Runs of the sections: a manual with a chapter, two parts of it and an appendix.
use lrllm.Prelude.{
  ℕ, ◌≡◌, refl, Text, codes, String, Option, none, some, List, [], ◌∷◌, map, select, Dict,
}
use lrllm.Ingestion.Semantic.{BlockType, heading, paragraph, AstBlock}
use lrllm.Ingestion.Sections.{is_heading, last_line, build_sections, find_section_id}
use lrllm.Ingestion.Sections.Siblings.{line_ends}
use lrllm.Ingestion.Sections.Paths.{
  parents, build_sections_lem, IsDeepest, find_section_id-IsDeepest,
}

abbrev block : BlockType → ℕ → Option ℕ → List Text → AstBlock
block type line level path = record {
  type = type;
  content = codes "x";
  line_start = line;
  line_end = line;
  level = level;
  heading_path = path;
}

abbrev manual : List AstBlock
manual =
    block heading 1 (some 1) (codes "A" ∷ [])
    ∷ block heading 3 (some 2) (codes "A" ∷ codes "B" ∷ [])
    ∷ block paragraph 4 none (codes "A" ∷ codes "B" ∷ [])
    ∷ block heading 7 (some 2) (codes "A" ∷ codes "C" ∷ [])
    ∷ block heading 9 none (codes "D" ∷ [])
    ∷ block paragraph 12 none (codes "D" ∷ [])
    ∷ []

ends_sections : map (λ s. s.section.line_end) (build_sections manual "doc") ≡ 8 ∷ 6 ∷ 8 ∷ 12 ∷ []
unfolding build_sections
ends_sections = refl

finds_parents :
    map (λ s. s.parent_offset) (build_sections manual "doc") ≡ none ∷ some 0 ∷ some 0 ∷ none ∷ []
unfolding build_sections
finds_parents = refl

build_sections_lem_example :
    (map (λ s. s.section.line_end) (build_sections manual "doc")
      ≡ line_ends (last_line manual) (select (λ b. is_heading b.type) manual))
    × (map (λ s. s.parent_offset) (build_sections manual "doc")
        ≡ parents [] (select (λ b. is_heading b.type) manual))
build_sections_lem_example = build_sections_lem manual "doc"

abbrev by_path : Dict (List Text) String
by_path = (codes "A" ∷ [], "s1") ∷ (codes "A" ∷ codes "B" ∷ [], "s2") ∷ []

abbrev below_second : List Text
below_second = codes "A" ∷ codes "B" ∷ codes "E" ∷ []

files_under_second : find_section_id below_second by_path ≡ some "s2"
unfolding find_section_id
files_under_second = refl

find_section_id-IsDeepest_example :
    IsDeepest below_second by_path (find_section_id below_second by_path)
find_section_id-IsDeepest_example = find_section_id-IsDeepest below_second by_path
