-- ===== src/Ingestion/Semantic.antt =====
-- app/ingestion/chunkers/semantic.py: the chunks of a parsed document, and the parent of each. The
-- token counter, the splitter of an oversized text and the text functions of Python are arguments.
pub mod Container
pub mod Whole
pub mod Sizes
use lrllm.Prelude.{
  ℕ, ◌+◌, Bool, true, false, not, ◌&&◌, ◌||◌, Text, codes, Option, none, some, List, [], ◌∷◌, ◌++◌,
  map, select, all_of, ltb, leb, elem, ◌==◌, ℕ_eq, list_eq, join, is_nonempty, if◌then◌else◌,
}
use lrllm.Ingestion.Tables.{TableOps, normalize_table}
use lrllm.Ingestion.TokenSplit.{TextOps, token_split}

-- `BlockType`
pub data BlockType : Type 0 where
  document heading paragraph list list_item code_block table quote image html : BlockType

-- `ASTBlock`, as far as a chunker reads it.
pub record AstBlock : Type 0 where
  pub type : BlockType
  pub content : Text
  pub line_start : ℕ
  pub line_end : ℕ
  pub level : Option ℕ
  pub heading_path : List Text

-- `ChunkType`
pub data ChunkType : Type 0 where
  text_chunk code_chunk table_chunk list_chunk : ChunkType

-- `parent.chunk_type == child.chunk_type`
abbrev pub same_type : ChunkType → ChunkType → Bool
same_type text_chunk text_chunk = true
same_type code_chunk code_chunk = true
same_type table_chunk table_chunk = true
same_type list_chunk list_chunk = true
same_type _ _ = false

-- `SemanticChunk`
pub record SemanticChunk : Type 0 where
  pub text : Text
  pub chunk_type : ChunkType
  pub heading_path : List Text
  pub line_start : ℕ
  pub line_end : ℕ
  pub token_count : ℕ
  pub raw_content : Option Text

-- `_split_oversized`
unfoldable pub split_oversized :
    (Text → ℕ) → TextOps → Option (Text → ℕ → List Text) → Text → ℕ → List Text
split_oversized count ops none text max_tokens = token_split count max_tokens ops text
split_oversized count ops (some splitter) text max_tokens = splitter text max_tokens

abbrev pub is_list : BlockType → Bool
is_list list = true
is_list _ = false

-- What the pass over the blocks does with one of them.
pub data Role : Type 0 where
  breaks : Role
  stands_alone : SemanticChunk → Role
  joins : Role

module _ (count : Text → ℕ) (tables : TableOps) (split : Text → ℕ → List Text)
    (max_tokens : ℕ) where
  -- `_code_chunk`
  abbrev pub code_of : AstBlock → SemanticChunk
  code_of b = record {
    text = b.content;
    chunk_type = code_chunk;
    heading_path = b.heading_path;
    line_start = b.line_start;
    line_end = b.line_end;
    token_count = count b.content;
    raw_content = none;
  }

  -- `_table_chunk`
  abbrev pub table_of : AstBlock → SemanticChunk
  table_of b = record {
    text = normalize_table tables b.content;
    chunk_type = table_chunk;
    heading_path = b.heading_path;
    line_start = b.line_start;
    line_end = b.line_end;
    token_count = count b.content;
    raw_content = some b.content;
  }

  -- The chunk of some parts that `flush` appends.
  abbrev pub text_of : List Text → List Text → ℕ → ℕ → SemanticChunk
  text_of parts path first last = record {
    text = join (codes "\n\n") parts;
    chunk_type = text_chunk;
    heading_path = path;
    line_start = first;
    line_end = last;
    token_count = count (join (codes "\n\n") parts);
    raw_content = none;
  }

  -- The chunk of one piece of an oversized block.
  abbrev pub piece_of : AstBlock → Text → SemanticChunk
  piece_of b piece = record {
    text = piece;
    chunk_type = if is_list b.type then list_chunk else text_chunk;
    heading_path = b.heading_path;
    line_start = b.line_start;
    line_end = b.line_end;
    token_count = count piece;
    raw_content = none;
  }

  -- `count(text) > max_tokens`
  abbrev pub is_over : Text → Bool
  is_over text = ltb max_tokens (count text)

  -- Whether a block closes the chunk of the parts before it: it stands under another heading, or
  -- there is no room for it. Either flush leaves no parts, so that at most one of them acts.
  abbrev pub closes : List Text → List Text → AstBlock → Bool
  closes parts path b =
      not (b.heading_path == path) || is_over (join (codes "\n\n") (parts ++ b.content ∷ []))

  -- The loop of `_emit_text_units`, with the parts, the path and the lines of the open chunk.
  unfoldable pub emit : List Text → List Text → ℕ → ℕ → List AstBlock → List SemanticChunk
  emit [] path first last [] = []
  emit (p ∷ ps) path first last [] = text_of (p ∷ ps) path first last ∷ []
  emit [] path first last (b ∷ bs) =
      let cut = map (piece_of b) (split b.content max_tokens) ++ emit [] [] b.line_start last bs in
      let opened = emit (b.content ∷ []) b.heading_path b.line_start b.line_end bs in
      if is_over b.content then cut else opened
  emit (p ∷ ps) path first last (b ∷ bs) =
      let cut = map (piece_of b) (split b.content max_tokens) ++ emit [] [] b.line_start last bs in
      let opened = emit (b.content ∷ []) b.heading_path b.line_start b.line_end bs in
      let joined = emit ((p ∷ ps) ++ b.content ∷ []) path first b.line_end bs in
      if closes (p ∷ ps) path b
      then text_of (p ∷ ps) path first last ∷ (if is_over b.content then cut else opened)
      else joined

  -- `flush_pending`
  abbrev pub emit_units : List AstBlock → List SemanticChunk
  emit_units [] = []
  emit_units (b ∷ bs) = emit [] [] b.line_start b.line_end (b ∷ bs)

  abbrev pub role : AstBlock → Role
  role b = elim b.type [
    | heading ↦ breaks
    | code_block ↦ stands_alone (code_of b)
    | table ↦ stands_alone (table_of b)
    | _ ↦ joins
  ]

  -- The pass of `_chunk_flat` over the blocks, with the pending ones.
  unfoldable pub flat : List AstBlock → List AstBlock → List SemanticChunk
  unfolding emit
  flat pending [] = emit_units pending
  flat pending (b ∷ bs) =
      let rest = flat [] bs in
      let later = flat (pending ++ b ∷ []) bs in
      elim (role b) [
        | breaks ↦ emit_units pending ++ rest
        | stands_alone chunk ↦ emit_units pending ++ (chunk ∷ rest)
        | joins ↦ later
      ]

  -- `_chunk_flat`
  unfoldable pub chunk_flat : List AstBlock → List SemanticChunk
  unfolding flat
  chunk_flat blocks = flat [] blocks

-- Whether a parent has the type and the lines of a child.
abbrev pub contains : SemanticChunk → SemanticChunk → Bool
contains child parent =
    same_type parent.chunk_type child.chunk_type
    && not (ltb child.line_start parent.line_start || ltb parent.line_end child.line_end)

-- `(parent.line_end - parent.line_start) < (best.line_end - best.line_start)`, without differences.
abbrev pub narrower : SemanticChunk → SemanticChunk → Bool
narrower parent best = ltb (parent.line_end + best.line_start) (best.line_end + parent.line_start)

abbrev pub better : SemanticChunk → Option SemanticChunk → Bool
better parent none = true
better parent (some best) = narrower parent best

-- The loop of `_find_container`.
unfoldable pub find_from :
    SemanticChunk → Option SemanticChunk → List SemanticChunk → Option SemanticChunk
find_from child best [] = best
find_from child best (parent ∷ parents) =
    let taken = find_from child (some parent) parents in
    let kept = find_from child best parents in
    if contains child parent && better parent best then taken else kept

-- `_find_container`
unfoldable pub find_container : SemanticChunk → List SemanticChunk → Option SemanticChunk
unfolding find_from
find_container child parents = find_from child none parents

-- `ParentChunkNode`
pub record ParentChunkNode : Type 0 where
  pub parent : Option SemanticChunk
  pub child : SemanticChunk

abbrev pub is_whole : ChunkType → Bool
is_whole code_chunk = true
is_whole table_chunk = true
is_whole _ = false

-- `chunk_with_parents`
unfoldable pub chunk_with_parents :
    (Text → ℕ) → TableOps → (Text → ℕ → List Text) → ℕ → ℕ → List AstBlock → List ParentChunkNode
unfolding chunk_flat find_container
chunk_with_parents count tables split max_tokens parent_max_tokens blocks =
    let children = chunk_flat count tables split max_tokens blocks in
    let parents = chunk_flat count tables split parent_max_tokens blocks in
    map
      (λ child. record {
        parent = if is_whole child.chunk_type then none else find_container child parents;
        child = child;
      })
      children
