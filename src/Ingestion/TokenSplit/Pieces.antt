-- ===== src/Ingestion/TokenSplit/Pieces.antt =====
-- What `token_split` cuts, and what it leaves whole.
use lrllm.Prelude.{
  ℕ, ◌≡◌, refl, sym, subst, ap, ◌∙◌, true, false, Text, codes, List, [], ◌∷◌, ◌++◌, append_assoc,
  length, map, select, leb, elem, eq_self, list_eq, ℕ_eq, join, if◌then◌else◌, All, Bool-cases, inl,
  inr, ◌⊎◌, is_nonempty, arith,
}
use lrllm.Ingestion.TokenSplit.{
  TextOps, fits, pack, split_by_lines, or_whole, split_parts, token_split, pieces_of,
}

abbrev pub flatten : List (List Text) → List Text
flatten [] = []
flatten (g ∷ gs) = g ++ flatten gs

-- Pieces in one text, less the empty ones at the start.
abbrev pub joined : Text → List Text → Text
joined glue [] = []
joined glue (p ∷ ps) = if is_nonempty p then join glue (p ∷ ps) else joined glue ps

join-snoc :
    (glue p : Text) (ps : List Text) (q : Text)
    → join glue (p ∷ (ps ++ q ∷ [])) ≡ join glue (p ∷ ps) ++ (glue ++ q)
join-snoc glue p [] q = refl
join-snoc glue p (r ∷ rs) q =
    ap (λ t. p ++ (glue ++ t)) (join-snoc glue r rs q)
    ∙ sym (
        append_assoc p (glue ++ join glue (r ∷ rs)) (glue ++ q)
        ∙ ap (λ t. p ++ t) (append_assoc glue (join glue (r ∷ rs)) (glue ++ q)))

joined_alone : (glue piece : Text) → joined glue (piece ∷ []) ≡ piece
joined_alone glue [] = refl
joined_alone glue (c ∷ cs) = refl

joined_first :
    (glue : Text) (g : List Text) (piece : Text)
    → is_nonempty (joined glue g) ≡ false
    → joined glue (g ++ piece ∷ []) ≡ piece
joined_first glue [] piece h = joined_alone glue piece
joined_first glue ([] ∷ g) piece h = joined_first glue g piece h
joined_first glue ((c ∷ cs) ∷ []) piece h = cc
joined_first glue ((c ∷ cs) ∷ p ∷ ps) piece h = cc

joined_more :
    (glue : Text) (g : List Text) (piece : Text)
    → is_nonempty (joined glue g) ≡ true
    → joined glue (g ++ piece ∷ []) ≡ joined glue g ++ (glue ++ piece)
joined_more glue [] piece h = cc
joined_more glue ([] ∷ g) piece h = joined_more glue g piece h
joined_more glue ((c ∷ cs) ∷ g) piece h = join-snoc glue (c ∷ cs) g piece

elem_last : (piece : Text) (g : List Text) → elem piece (g ++ piece ∷ []) ≡ true
elem_last piece [] = rw (eq_self piece) refl
elem_last piece (p ∷ g) = ground (arith, elem_last piece g)

module _ (count : Text → ℕ) (max_tokens : ℕ) where
  -- A group leaves no part, or one within the limit, or one that is a piece of the group by itself.
  abbrev pub IsHeld : Text → List Text → Type 0
  IsHeld glue g =
      (is_nonempty (joined glue g) ≡ false)
      ⊎ (fits count max_tokens (joined glue g) ≡ true)
      ⊎ (elem (joined glue g) g ≡ true)

  -- The pieces in groups, in order, and the parts one for each group.
  abbrev pub Packs : Text → List Text → List Text → Type 0
  Packs glue pieces parts =
      (groups : List (List Text)) × (flatten groups ≡ pieces)
      × (parts ≡ select is_nonempty (map (joined glue) groups))
      × All (IsHeld glue) groups

  IsHeld-alone : (glue piece : Text) → IsHeld glue (piece ∷ [])
  IsHeld-alone glue piece = inr (inr (rw (joined_alone glue piece, eq_self piece) refl))

  Packs-same :
      (glue : Text) (xs ys parts others : List Text)
      → xs ≡ ys
      → parts ≡ others
      → Packs glue xs parts
      → Packs glue ys others
  Packs-same glue xs ys parts others e f h =
      subst (λ v. Packs glue ys v) f (subst (λ u. Packs glue u parts) e h)

  pack_first :
      (glue current piece : Text) (pieces : List Text)
      → is_nonempty current ≡ false
      → pack count max_tokens glue current (piece ∷ pieces)
        ≡ pack count max_tokens glue piece pieces
  unfolding pack
  pack_first glue [] piece pieces h = refl
  pack_first glue (c ∷ cs) piece pieces h = cc

  pack_together :
      (glue current piece : Text) (pieces : List Text)
      → is_nonempty current ≡ true
      → fits count max_tokens (current ++ (glue ++ piece)) ≡ true
      → pack count max_tokens glue current (piece ∷ pieces)
        ≡ pack count max_tokens glue (current ++ (glue ++ piece)) pieces
  unfolding pack
  pack_together glue [] piece pieces h within = cc
  pack_together glue (c ∷ cs) piece pieces h within = rw within refl

  pack_apart :
      (glue current piece : Text) (pieces : List Text)
      → is_nonempty current ≡ true
      → fits count max_tokens (current ++ (glue ++ piece)) ≡ false
      → pack count max_tokens glue current (piece ∷ pieces)
        ≡ current ∷ pack count max_tokens glue piece pieces
  unfolding pack
  pack_apart glue [] piece pieces h over = cc
  pack_apart glue (c ∷ cs) piece pieces h over = rw over refl

  pack-Packs :
      (glue : Text) (g pieces : List Text)
      → IsHeld glue g
      → Packs glue (g ++ pieces) (pack count max_tokens glue (joined glue g) pieces)
  unfolding pack
  pack-Packs glue g [] h = elim (Bool-cases (is_nonempty (joined glue g))) [
    | inl e ↦ (g ∷ [], refl, rw e refl, (h, tt))
    | inr e ↦ (g ∷ [], refl, rw e refl, (h, tt))
  ]
  pack-Packs glue g (piece ∷ pieces) h =
      let grown = g ++ piece ∷ [] in
      let all : grown ++ pieces ≡ g ++ piece ∷ pieces = append_assoc g (piece ∷ []) pieces in
      elim (Bool-cases (is_nonempty (joined glue g))) [
        | inr e ↦
            let text = joined_first glue g piece e in
            let held : IsHeld glue grown = inr (inr (rw text (elem_last piece g))) in
            Packs-same glue _ _ _ _ all
              (ap (λ t. pack count max_tokens glue t pieces) text
                ∙ sym (pack_first glue (joined glue g) piece pieces e))
              (pack-Packs glue grown pieces held)
        | inl e ↦
            let text = joined_more glue g piece e in
            elim (Bool-cases (fits count max_tokens (joined glue g ++ (glue ++ piece)))) [
              | inl within ↦
                  Packs-same glue _ _ _ _ all
                    (ap (λ t. pack count max_tokens glue t pieces) text
                      ∙ sym (pack_together glue (joined glue g) piece pieces e within))
                    (pack-Packs glue grown pieces (inr (inl (rw text within))))
              | inr over ↦
                  let (groups, flat, parts, held) =
                    pack-Packs glue (piece ∷ []) pieces (IsHeld-alone glue piece) in
                  let rest =
                    ap (λ t. pack count max_tokens glue t pieces) (sym (joined_alone glue piece))
                    ∙ parts in
                  (
                    g ∷ groups,
                    ap (λ xs. g ++ xs) flat,
                    pack_apart glue (joined glue g) piece pieces e over
                        ∙ rw e (ap (λ ps. joined glue g ∷ ps) rest),
                    (h, held),
                  )
            ]
      ]

  module _ (ops : TextOps) where
    -- What becomes of a part that is too long: it stays whole if it has no two lines, or if all its
    -- lines are empty, and else its lines are packed in their turn.
    abbrev pub CutOf : Text → List Text → Type 0
    CutOf part out =
        let lines = ops.splitlines part in
        (leb (length lines) 1 ≡ true) × (out ≡ part ∷ [])
        ⊎ (leb (length lines) 1 ≡ false)
          × (((p : Text) × (ps : List Text) × (out ≡ p ∷ ps) × Packs (codes "\n") lines (p ∷ ps))
              ⊎ Packs (codes "\n") lines [] × (out ≡ part ∷ []))

    abbrev pub SplitOf : Text → List Text → Type 0
    SplitOf part out =
        (fits count max_tokens part ≡ true) × (out ≡ part ∷ [])
        ⊎ (fits count max_tokens part ≡ false) × CutOf part out

    -- The parts in a row, each with what becomes of it.
    abbrev pub Splits : List Text → List Text → Type 0
    Splits [] out = out ≡ []
    Splits (p ∷ ps) out =
        (here later : List Text) × (out ≡ here ++ later) × SplitOf p here × Splits ps later

    or_whole-CutOf :
        (part : Text) (parts : List Text)
        → leb (length (ops.splitlines part)) 1 ≡ false
        → Packs (codes "\n") (ops.splitlines part) parts
        → CutOf part (or_whole count max_tokens parts part)
    or_whole-CutOf part [] more h = inr (more, inr (h, refl))
    or_whole-CutOf part (p ∷ ps) more h = inr (more, inl (p, ps, refl, h))

    split_by_lines-CutOf :
        (part : Text)
        → CutOf part (or_whole count max_tokens (split_by_lines count max_tokens ops part) part)
    unfolding split_by_lines
    split_by_lines-CutOf part = elim (Bool-cases (leb (length (ops.splitlines part)) 1)) [
      | inl e ↦ inl (e, rw (e, split_by_lines) refl)
      | inr e ↦
          let same : split_by_lines count max_tokens ops part
              ≡ pack count max_tokens (codes "\n") [] (ops.splitlines part) =
            rw (e, split_by_lines) refl in
          subst (λ ps. CutOf part (or_whole count max_tokens ps part)) (sym same)
            (or_whole-CutOf part _ e (pack-Packs (codes "\n") [] (ops.splitlines part) (inl refl)))
    ]

    split_parts-Splits : (parts : List Text) → Splits parts (split_parts count max_tokens ops parts)
    unfolding split_parts
    split_parts-Splits [] = refl
    split_parts-Splits (part ∷ parts) =
        let rest = split_parts count max_tokens ops parts in
        let smaller = or_whole count max_tokens (split_by_lines count max_tokens ops part) part in
        elim (Bool-cases (fits count max_tokens part)) [
          | inl e ↦
              (part ∷ [], rest, rw (e, split_parts) refl, inl (e, refl), split_parts-Splits parts)
          | inr e ↦ (
            smaller,
            rest,
            rw (e, split_parts) refl,
            inr (e, split_by_lines-CutOf part),
            split_parts-Splits parts,
          )
        ]

    -- A text within the limit of tokens is returned whole. Of any other every sentence that is not
    -- blank goes, whole and in order, into one part, and a part that is over the limit is a single
    -- sentence. A part within the limit is returned as it is; one over it is cut at its line breaks
    -- only, if it has two lines or more and they are not all empty: every line goes in order into
    -- one smaller part, less the empty lines that would begin it, and a smaller part over the limit
    -- is a single line.
    pub token_split-IsSplit :
        (text : Text)
        → (fits count max_tokens text ≡ true) × (token_split count max_tokens ops text ≡ text ∷ [])
          ⊎ (fits count max_tokens text ≡ false)
            × ((parts : List Text) × Packs [] (pieces_of count max_tokens ops text) parts
                × Splits parts (token_split count max_tokens ops text))
    unfolding token_split
    token_split-IsSplit text = elim (Bool-cases (fits count max_tokens text)) [
      | inl within ↦ inl (within, rw (within, token_split) refl)
      | inr over ↦
          let pieces = pieces_of count max_tokens ops text in
          inr (
            over,
            (
              pack count max_tokens [] [] pieces,
              pack-Packs [] [] pieces (inl refl),
              rw (over, token_split) (split_parts-Splits (pack count max_tokens [] [] pieces)),
            ),
          )
    ]
