-- ===== src/Ingestion/ParserChoice.antt =====
-- app/ingestion/parsers/__init__.py: `parser_for`, the parser of a document by its file name and its
-- first bytes. A byte is the code point that latin-1 makes of it; `lower` and `lstrip` of a text are
-- library code.
use lrllm.Prelude.{
  ℕ, Bool, true, false, ◌&&◌, ◌||◌, Text, codes, Option, none, some, List, [], ◌∷◌, take, drop,
  length, leb, ◌-◌, ◌==◌, ℕ_eq, list_eq, is_nonempty, if◌then◌else◌,
}

-- The parsers that `_by_kind` makes.
pub data ParserKind : Type 0 where
  markdown html pdf : ParserKind

-- `_HINT_SUFFIXES`
abbrev pub hint_suffixes : List (Text × ParserKind)
hint_suffixes =
    (codes ".md", markdown)
    ∷ (codes ".markdown", markdown)
    ∷ (codes ".html", html)
    ∷ (codes ".htm", html)
    ∷ (codes ".pdf", pdf)
    ∷ []

-- `text.startswith(prefix)`
unfoldable pub starts_with : Text → Text → Bool
starts_with [] text = true
starts_with (p ∷ ps) [] = false
starts_with (p ∷ ps) (c ∷ cs) = p == c && starts_with ps cs

-- `text.endswith(suffix)`
unfoldable pub ends_with : Text → Text → Bool
ends_with suffix text =
    leb (length suffix) (length text) && drop (length text - length suffix) text == suffix

-- `part in text`
unfoldable pub occurs_in : Text → Text → Bool
unfolding starts_with
occurs_in part [] = starts_with part []
occurs_in part (c ∷ cs) = starts_with part (c ∷ cs) || occurs_in part cs

-- The loop over the suffixes.
unfoldable pub kind_by_suffix : List (Text × ParserKind) → Text → Option ParserKind
unfolding ends_with
kind_by_suffix [] name = none
kind_by_suffix ((suffix, kind) ∷ rest) name =
    let others = kind_by_suffix rest name in if ends_with suffix name then some kind else others

module _ (lower lstrip : Text → Text) where
  -- The choice by the first 2048 bytes.
  unfoldable pub sniff : List ℕ → ParserKind
  unfolding starts_with occurs_in
  sniff content =
      let prefix = take 2048 content in
      let sample = lower prefix in
      if starts_with (codes "%PDF") (lstrip prefix)
      then pdf
      else if occurs_in (codes "<html") sample || occurs_in (codes "<!doctype html") sample
      then html
      else markdown

  -- `parser_for`
  unfoldable pub parser_for : List ℕ → Option Text → ParserKind
  unfolding sniff kind_by_suffix
  parser_for content none = sniff content
  parser_for content (some hint) =
      if is_nonempty hint
      then elim (kind_by_suffix hint_suffixes (lower hint)) [
        | some kind ↦ kind
        | none ↦ sniff content
      ]
      else sniff content
