-- ===== src/Ingestion/Examples.antt =====
-- Runs of the metadata, the token split and the semantic chunker.
use lrllm.Prelude.{
  ℕ, Bool, ◌≡◌, refl, map, ◌⊎◌, ◌++◌, true, false, not, Text, codes, is_nonempty, length, All, ℕ_eq,
  String, none, some, List, [], ◌∷◌, ◌==◌, string_eq, if◌then◌else◌, Dict, dict_get, select,
}
use lrllm.Ingestion.TokenSplit.{TextOps, fits, token_split, concat, pieces_of, token_split-concat}
use lrllm.Ingestion.TokenSplit.Pieces.{Packs, Splits, token_split-IsSplit}
use lrllm.Ingestion.ParserChoice.{html, pdf, parser_for}
use lrllm.Ingestion.Tables.{TableOps}
use lrllm.Ingestion.Semantic.{
  BlockType, heading, paragraph, code_block, list, AstBlock, SemanticChunk, ParentChunkNode,
  chunk_flat, chunk_with_parents,
}
use lrllm.Ingestion.Semantic.Container.{IsNode, chunk_with_parents-IsNode}
use lrllm.Ingestion.Semantic.Whole.{whole, whole_chunks, chunk_flat-whole}
use lrllm.Ingestion.Semantic.Sizes.{IsSized, chunk_flat-IsSized}
use lrllm.Ingestion.Metadata.{
  Field, product, fields, IsConflict, IsResolution, StringOps, resolved, conflict, resolve_metadata,
  conflicts_in, resolve_metadata_lem,
}

abbrev ops : StringOps
ops = record {
  strip = λ s. s;
  match_version = λ s. if s == "v1.2" then some "1.2" else none;
  stem = λ s. if s == "guide.md" then "guide" else s;
}

abbrev upload : Dict String String
upload = ("product", "router") ∷ ("version", "1.2") ∷ []

abbrev same_version : Dict String String
same_version = ("version", "v1.2") ∷ ("source", "wiki") ∷ []

abbrev other_product : Dict String String
other_product = ("product", "switch") ∷ []

two_notations :
    resolve_metadata ops upload same_version (some "guide.md")
    ≡ resolved (record {
      title = some "guide";
      doc_class = none;
      source = some "wiki";
      product = some "router";
      version = some "1.2";
    })
unfolding resolve_metadata dict_get
two_notations = refl

two_products : resolve_metadata ops upload other_product none ≡ conflict (product ∷ [])
unfolding resolve_metadata dict_get
two_products = refl

resolve_metadata_lem_example :
    IsResolution ops upload other_product none
      (select (conflicts_in ops upload other_product none) fields)
      (resolve_metadata ops upload other_product none)
    × ((f : Field)
        → (conflicts_in ops upload other_product none f ≡ true
            → IsConflict ops upload other_product none f)
          × (IsConflict ops upload other_product none f
              → conflicts_in ops upload other_product none f ≡ true))
resolve_metadata_lem_example = resolve_metadata_lem ops upload other_product none

-- A token is a character, a sentence ends at a full stop, a line at a line break.
abbrev split_at : ℕ → Text → Text → List Text
split_at c current [] = if is_nonempty current then current ∷ [] else []
split_at c current (x ∷ xs) =
    let apart = (current ++ x ∷ []) ∷ split_at c [] xs in
    let rest = split_at c (current ++ x ∷ []) xs in if x == c then apart else rest

abbrev text_ops : TextOps
text_ops = record {
  sentences = split_at 46 [];
  splitlines = split_at 10 [];
  is_blank = λ t. not (is_nonempty t);
}

abbrev sample : Text
sample = codes "ab.cd.efghij."

splits_sentences : token_split length 6 text_ops sample ≡ codes "ab.cd." ∷ codes "efghij." ∷ []
unfolding token_split
splits_sentences = refl

token_split-IsSplit_example :
    (fits length 6 sample ≡ true) × (token_split length 6 text_ops sample ≡ sample ∷ [])
    ⊎ (fits length 6 sample ≡ false)
      × ((parts : List Text) × Packs length 6 [] (pieces_of length 6 text_ops sample) parts
          × Splits length 6 text_ops parts (token_split length 6 text_ops sample))
token_split-IsSplit_example = token_split-IsSplit length 6 text_ops sample

-- A sentence over the limit is cut at its line breaks.
splits_lines :
    token_split length 6 text_ops (codes "ab.cd\nefghi.")
    ≡ codes "ab." ∷ codes "cd\n" ∷ codes "efghi." ∷ []
unfolding token_split
splits_lines = refl

token_split-concat_example :
    concat length 7 (token_split length 7 text_ops sample)
    ≡ concat length 7 (pieces_of length 7 text_ops sample)
token_split-concat_example =
    token_split-concat length 7 text_ops sample refl (refl, (refl, (refl, tt)))

abbrev block : BlockType → String → ℕ → AstBlock
block type content line = record {
  type = type;
  content = codes content;
  line_start = line;
  line_end = line;
  level = none;
  heading_path = codes "A" ∷ [];
}

abbrev page : List AstBlock
page =
    block heading "# A" 1
    ∷ block paragraph "one" 2
    ∷ block paragraph "two" 3
    ∷ block code_block "long code" 4
    ∷ block list "a.b.c.d.e." 5
    ∷ []

abbrev table_ops : TableOps
table_ops = record {
  strip = λ t. t;
  strip_bars = λ t. t;
  split_bars = split_at 124 [];
  splitlines = split_at 10 [];
}

abbrev at_stops : Text → ℕ → List Text
at_stops text max_tokens = token_split length max_tokens text_ops text

abbrev chunks : ℕ → List SemanticChunk
chunks limit = chunk_flat length table_ops at_stops limit page

abbrev text_at : SemanticChunk → Text
text_at c = c.text

packs_page :
    map text_at (chunks 8)
    ≡ codes "one\n\ntwo" ∷ codes "long code" ∷ codes "a.b.c.d." ∷ codes "e." ∷ []
unfolding chunk_flat token_split
packs_page = refl

abbrev has_parent : ParentChunkNode → Bool
has_parent n = elim n.parent [ none ↦ false | some p ↦ true ]

-- The pieces of the oversized list have no parent, though the list lies in one.
list_pieces_alone :
    map has_parent (chunk_with_parents length table_ops at_stops 8 40 page)
    ≡ true ∷ false ∷ false ∷ false ∷ []
unfolding chunk_with_parents token_split
list_pieces_alone = refl

chunk_flat-IsSized_example : All (IsSized length table_ops at_stops 8 page) (chunks 8)
chunk_flat-IsSized_example = chunk_flat-IsSized length table_ops at_stops 8 page

chunk_flat-whole_example :
    select (whole length table_ops at_stops 8) (chunks 8)
    ≡ whole_chunks length table_ops at_stops 8 page
chunk_flat-whole_example = chunk_flat-whole length table_ops at_stops 8 page

chunk_with_parents-IsNode_example :
    let nodes = chunk_with_parents length table_ops at_stops 8 40 page in
    All (IsNode (chunks 40)) nodes × (map (λ n. n.child) nodes ≡ chunks 8)
chunk_with_parents-IsNode_example = chunk_with_parents-IsNode length table_ops at_stops 8 40 page

sniffs_pdf : parser_for (λ t. t) (λ t. t) (codes "%PDF-1.7") none ≡ pdf
unfolding parser_for
sniffs_pdf = refl

prefers_hint : parser_for (λ t. t) (λ t. t) (codes "%PDF-1.7") (some (codes "a.html")) ≡ html
unfolding parser_for
prefers_hint = refl

falls_back : parser_for (λ t. t) (λ t. t) (codes "x <html>") (some (codes "a.txt")) ≡ html
unfolding parser_for
falls_back = refl
