-- ===== src/Ingestion/TokenSplit.antt =====
-- app/ingestion/chunkers/token_split.py: the count of tokens, and the split of an oversized text.
-- The encoder of tiktoken, the split at the ends of sentences and `str.splitlines` are library
-- code: they are arguments.
pub mod Pieces
use lrllm.Prelude.{
  ℕ, ◌/◌, ◌≡◌, refl, ap, ◌∙◌, max, Bool, true, false, not, ◌&&◌, Text, codes, Option, none, some,
  List, [], ◌∷◌, ◌++◌, append_assoc, length, select, leb, elem, ◌==◌, list_eq, ℕ_eq, if◌then◌else◌,
  arith, All, All-mono, All-append, elem-All, Bool-cases, inl, inr, ◌⊎◌, is_nonempty, if_both,
}

-- `TokenCounter.count`: the encoder, if it could be loaded, gives the number of its tokens.
abbrev pub count_tokens : Option (Text → ℕ) → Text → ℕ
count_tokens none text = max 1 (length text / 4)
count_tokens (some encode) text = encode text

-- The split at `_SENTENCE_BOUNDARY_RE`, `str.splitlines`, and whether `str.strip` leaves nothing.
pub record TextOps : Type 0 where
  pub sentences : Text → List Text
  pub splitlines : Text → List Text
  pub is_blank : Text → Bool

module _ (count : Text → ℕ) (max_tokens : ℕ) where
  abbrev pub fits : Text → Bool
  fits text = leb (count text) max_tokens

  -- `if current: parts.append(current)`
  abbrev pub flush : Text → List Text
  flush current = if is_nonempty current then current ∷ [] else []

  -- A loop that packs pieces, with the text that goes between two of them: no text in
  -- `token_split`, a line break in `_split_by_lines`.
  unfoldable pub pack : Text → Text → List Text → List Text
  pack glue current [] = flush current
  pack glue current (piece ∷ pieces) =
      let candidate = current ++ ((if is_nonempty current then glue else []) ++ piece) in
      let apart = current ∷ pack glue piece pieces in
      let together = pack glue candidate pieces in
      if is_nonempty current && not (fits candidate) then apart else together

  -- `_split_by_lines`
  unfoldable pub split_by_lines : TextOps → Text → List Text
  split_by_lines ops text =
      let lines = ops.splitlines text in
      if leb (length lines) 1 then text ∷ [] else pack (codes "\n") [] lines

  -- The parts of one packed part that is still too long.
  abbrev pub or_whole : List Text → Text → List Text
  or_whole [] part = part ∷ []
  or_whole (p ∷ ps) part = p ∷ ps

  unfoldable pub split_parts : TextOps → List Text → List Text
  split_parts ops [] = []
  split_parts ops (part ∷ parts) =
      let rest = split_parts ops parts in
      let smaller = or_whole (split_by_lines ops part) part in
      if fits part then part ∷ rest else smaller ++ rest

  -- `token_split`
  unfoldable pub token_split : TextOps → Text → List Text
  unfolding pack split_by_lines split_parts
  token_split ops text =
      let pieces = select (λ p. not (ops.is_blank p)) (ops.sentences text) in
      if fits text then text ∷ [] else split_parts ops (pack [] [] pieces)

  -- The texts in one.
  abbrev pub concat : List Text → Text
  concat [] = []
  concat (t ∷ ts) = t ++ concat ts

  -- Packing without glue leaves the text as it is.
  pack-concat :
      (current : Text) (pieces : List Text)
      → concat (pack [] current pieces) ≡ current ++ concat pieces
  unfolding pack
  pack-concat [] [] = refl
  pack-concat (c ∷ cs) [] = refl
  pack-concat [] (piece ∷ pieces) = pack-concat piece pieces
  pack-concat (c ∷ cs) (piece ∷ pieces) =
      let current = c ∷ cs in
      if_both (λ (ps : List Text). concat ps ≡ current ++ (piece ++ concat pieces))
        (not (fits (current ++ piece))) (ap (λ t. current ++ t) (pack-concat piece pieces))
        (pack-concat (current ++ piece) pieces ∙ append_assoc current piece (concat pieces))

  -- A part is within the limit, or it is one of the pieces that could not be cut.
  abbrev pub IsPart : List Text → Text → Type 0
  IsPart pieces part = (fits part ≡ true) ⊎ (elem part pieces ≡ true)

  pack-IsPart :
      (glue current : Text) (pieces all : List Text)
      → (is_nonempty current ≡ false) ⊎ IsPart all current
      → All (λ p. elem p all ≡ true) pieces
      → All (IsPart all) (pack glue current pieces)
  unfolding pack
  pack-IsPart glue [] [] all h a = tt
  pack-IsPart glue (c ∷ cs) [] all h a = (part_of h, tt)
    where
      part_of : (is_nonempty (c ∷ cs) ≡ false) ⊎ IsPart all (c ∷ cs) → IsPart all (c ∷ cs)
      part_of (inl e) = cc e
      part_of (inr p) = p
  pack-IsPart glue [] (piece ∷ pieces) all h a =
      pack-IsPart glue piece pieces all (inr (inr a.0)) a.1
  pack-IsPart glue (c ∷ cs) (piece ∷ pieces) all h a =
      let candidate = (c ∷ cs) ++ (glue ++ piece) in
      elim (Bool-cases (fits candidate)) [
        | inl within ↦ rw within (pack-IsPart glue candidate pieces all (inr (inl within)) a.1)
        | inr over ↦ rw over (part_of h, pack-IsPart glue piece pieces all (inr (inr a.0)) a.1)
      ]
    where
      part_of : (is_nonempty (c ∷ cs) ≡ false) ⊎ IsPart all (c ∷ cs) → IsPart all (c ∷ cs)
      part_of (inl e) = cc e
      part_of (inr p) = p

  module _ (ops : TextOps) where
    -- The sentences that the split keeps.
    abbrev pub pieces_of : Text → List Text
    pieces_of text = select (λ p. not (ops.is_blank p)) (ops.sentences text)

    split_parts-same :
        (parts : List Text) → All (λ p. fits p ≡ true) parts → split_parts ops parts ≡ parts
    unfolding split_parts
    split_parts-same [] h = refl
    split_parts-same (part ∷ parts) h =
        rw (h.0, split_parts) (ap (◌∷◌ part) (split_parts-same parts h.1))

    elem-fits :
        (p : Text) (pieces : List Text)
        → All (λ q. fits q ≡ true) pieces
        → elem p pieces ≡ true
        → fits p ≡ true
    elem-fits p [] h m = cc
    elem-fits p (q ∷ pieces) h m = elim (Bool-cases (p == q)) [
      | inl same ↦ rw ((list_eq.same_iff p q).0 same) h.0
      | inr other ↦ elem-fits p pieces h.1 (ground arith)
    ]

    -- For a text that is too long but has no sentence that is, no character is lost or moved: the
    -- parts in a row are the sentences in a row, less the blank ones.
    pub token_split-concat :
        (text : Text)
        → fits text ≡ false
        → All (λ p. fits p ≡ true) (pieces_of text)
        → concat (token_split ops text) ≡ concat (pieces_of text)
    unfolding token_split
    token_split-concat text over short =
        let pieces = pieces_of text in
        let parts = pack [] [] pieces in
        let fitting =
          All-mono
            (λ p h. elim h [ inl within ↦ within | inr known ↦ elem-fits p pieces short known ])
            parts (pack-IsPart [] [] pieces pieces (inl refl) (elem-All pieces)) in
        rw (over, split_parts-same parts fitting) (pack-concat [] pieces)
