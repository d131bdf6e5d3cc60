-- ===== src/Ingestion/Sections.antt =====
-- app/ingestion/pipeline.py: the sections of a parsed document, `_build_sections`, and the section a
-- chunk is filed under, `_find_section_id`. The list `next_sibling` is written at an index; the stack
-- has its top first.
pub mod Siblings
pub mod Paths
mod Examples
use lrllm.Prelude.{
  ℕ, zero, suc, ◌-◌, Bool, true, false, Text, codes, String, Option, none, some, List, [], ◌∷◌, map,
  select, take, length, leb, get_elem?, max, join, get_or, elem, ◌==◌, ℕ_eq, list_eq, if◌then◌else◌,
  Dict, dict_get, dict_set,
}
use lrllm.Ingestion.Semantic.{BlockType, heading, AstBlock}

-- `b.type == BlockType.HEADING`
abbrev pub is_heading : BlockType → Bool
is_heading heading = true
is_heading _ = false

-- `Section`, before the database gives ids.
pub record Section : Type 0 where
  pub document_id : String
  pub heading : Text
  pub heading_path : Text
  pub level : ℕ
  pub section_order : ℕ
  pub line_start : ℕ
  pub line_end : ℕ

-- `xs[i] = x`
unfoldable pub set_at : ℕ → Option ℕ → List (Option ℕ) → List (Option ℕ)
set_at i x [] = []
set_at zero x (y ∷ ys) = x ∷ ys
set_at (suc i) x (y ∷ ys) = y ∷ set_at i x ys

-- The entries of the stack: a level and the index of its heading.
abbrev pub Stack : Type 0
Stack = List (ℕ × ℕ)

-- `block.level if block.level is not None else 1`
abbrev pub level_of : AstBlock → ℕ
level_of b = get_or b.level 1

-- `while stack and stack[-1][0] >= level`: the stack and `next_sibling` afterwards.
unfoldable pub pop_while : ℕ → ℕ → Stack → List (Option ℕ) → Stack × List (Option ℕ)
unfolding set_at
pop_while level index [] next = ([], next)
pop_while level index ((l, popped) ∷ stack) next =
    let popped_on = pop_while level index stack (set_at popped (some index) next) in
    if leb level l then popped_on else ((l, popped) ∷ stack, next)

-- `for index, block in enumerate(headings)`
unfoldable pub link : ℕ → Stack → List (Option ℕ) → List AstBlock → List (Option ℕ)
unfolding pop_while
link index stack next [] = next
link index stack next (b ∷ bs) =
    let (kept, marked) = pop_while (level_of b) index stack next in
    link (suc index) ((level_of b, index) ∷ kept) marked bs

-- `[None] * n`
abbrev pub unset : ℕ → List (Option ℕ)
unset zero = []
unset (suc n) = none ∷ unset n

unfoldable pub next_sibling : List AstBlock → List (Option ℕ)
unfolding link
next_sibling headings = link 0 [] (unset (length headings)) headings

-- `max((b.line_end for b in blocks))`
abbrev pub last_line : List AstBlock → ℕ
last_line [] = 0
last_line (b ∷ bs) = max b.line_end (last_line bs)

-- `path[:-1]`
abbrev pub parent_path : List Text → List Text
parent_path [] = []
parent_path (t ∷ []) = []
parent_path (t ∷ u ∷ ts) = t ∷ parent_path (u ∷ ts)

-- The line before that of a heading, or the last line if there is none; `nxt` holds the index of the
-- heading, and an index that is no heading's does not arise.
abbrev pub end_line : List AstBlock → ℕ → Option (Option ℕ) → ℕ
end_line headings last (some (some nxt)) = elim (get_elem? headings nxt) [
  | some h ↦ h.line_start - 1
  | none ↦ last
]
end_line headings last _ = last

-- `block.level or 1`
abbrev pub level_or_one : Option ℕ → ℕ
level_or_one none = 1
level_or_one (some zero) = 1
level_or_one (some (suc n)) = suc n

-- What `_build_sections` returns, as one list of triples in place of three lists.
pub record Built : Type 0 where
  pub section : Section
  pub parent_offset : Option ℕ
  pub path : List Text

module _ (document_id : String) (headings : List AstBlock) (next : List (Option ℕ)) (last : ℕ) where
  -- The section of one heading.
  abbrev pub section_of : ℕ → AstBlock → Section
  section_of order b = record {
    document_id = document_id;
    heading = b.content;
    heading_path = join (codes " / ") b.heading_path;
    level = level_or_one b.level;
    section_order = order;
    line_start = b.line_start;
    line_end = end_line headings last (get_elem? next order);
  }

  -- `for order, block in enumerate(headings)`, with `path_index`.
  unfoldable pub sections_from : ℕ → Dict (List Text) ℕ → List AstBlock → List Built
  unfolding dict_get dict_set
  sections_from order path_index [] = []
  sections_from order path_index (b ∷ bs) =
      record {
        section = section_of order b;
        parent_offset = dict_get (parent_path b.heading_path) path_index;
        path = b.heading_path;
      }
      ∷ sections_from (suc order) (dict_set b.heading_path order path_index) bs

-- `_build_sections`; without a heading there are no sections.
unfoldable pub build_sections : List AstBlock → String → List Built
unfolding next_sibling sections_from
build_sections blocks document_id =
    let headings = select (λ b. is_heading b.type) blocks in
    sections_from document_id headings (next_sibling headings) (last_line blocks) 0 [] headings

-- `for depth in range(len(heading_path), 0, -1)`, from a depth down.
unfoldable pub find_from_depth : ℕ → List Text → Dict (List Text) String → Option String
unfolding dict_get
find_from_depth zero path by_path = none
find_from_depth (suc depth) path by_path =
    let shorter = find_from_depth depth path by_path in
    elim (dict_get (take (suc depth) path) by_path) [ some id ↦ some id | none ↦ shorter ]

-- `_find_section_id`
unfoldable pub find_section_id : List Text → Dict (List Text) String → Option String
unfolding find_from_depth
find_section_id path by_path = find_from_depth (length path) path by_path
