-- ===== src/Ingestion/Semantic/Whole.antt =====
-- Code blocks and tables among the chunks.
use lrllm.Prelude.{
  select-append, ℕ, ◌≡◌, refl, ap, ◌∙◌, Bool, Text, List, [], ◌∷◌, ◌++◌, map, select, Bool-cases,
  inl, inr,
}
use lrllm.Ingestion.Tables.{TableOps}
use lrllm.Ingestion.Semantic.{
  BlockType, heading, code_block, table, document, paragraph, list, list_item, quote, image, html,
  AstBlock, SemanticChunk, code_of, table_of, piece_of, is_over, closes, is_list, is_whole, emit,
  emit_units, flat, chunk_flat,
}

module _ (count : Text → ℕ) (tables : TableOps) (split : Text → ℕ → List Text)
    (max_tokens : ℕ) where
  abbrev pub whole : SemanticChunk → Bool
  whole c = is_whole c.chunk_type

  -- The chunks of the code blocks and the tables, block by block.
  abbrev pub whole_chunks : List AstBlock → List SemanticChunk
  whole_chunks [] = []
  whole_chunks (b ∷ bs) = elim b.type [
    | code_block ↦ code_of count tables split max_tokens b ∷ whole_chunks bs
    | table ↦ table_of count tables split max_tokens b ∷ whole_chunks bs
    | _ ↦ whole_chunks bs
  ]

  pieces_whole :
      (b : AstBlock) (ts : List Text)
      → select whole (map (piece_of count tables split max_tokens b) ts) ≡ []
  pieces_whole b [] = refl
  pieces_whole b (t ∷ ts) = elim (Bool-cases (is_list b.type)) [
    | inl l ↦ rw l (pieces_whole b ts)
    | inr l ↦ rw l (pieces_whole b ts)
  ]

  cut_whole :
      (b : AstBlock) (rest : List SemanticChunk)
      → select whole rest ≡ []
      → select whole
          (map (piece_of count tables split max_tokens b) (split b.content max_tokens) ++ rest)
        ≡ []
  cut_whole b rest h =
      select-append whole
        (map (piece_of count tables split max_tokens b) (split b.content max_tokens)) rest
      ∙ rw (pieces_whole b (split b.content max_tokens), h) refl

  emit-whole :
      (parts path : List Text) (first last : ℕ) (bs : List AstBlock)
      → select whole (emit count tables split max_tokens parts path first last bs) ≡ []
  unfolding emit
  emit-whole [] path first last [] = refl
  emit-whole (p ∷ ps) path first last [] = refl
  emit-whole [] path first last (b ∷ bs) =
      elim (Bool-cases (is_over count tables split max_tokens b.content)) [
        | inl over ↦ rw (over, emit) (cut_whole b _ (emit-whole [] [] b.line_start last bs))
        | inr fits ↦
            rw (fits, emit) (emit-whole (b.content ∷ []) b.heading_path b.line_start b.line_end bs)
      ]
  emit-whole (p ∷ ps) path first last (b ∷ bs) =
      elim (Bool-cases (closes count tables split max_tokens (p ∷ ps) path b)) [
        | inr open' ↦
            rw (open', emit) (emit-whole ((p ∷ ps) ++ b.content ∷ []) path first b.line_end bs)
        | inl closed ↦ elim (Bool-cases (is_over count tables split max_tokens b.content)) [
          | inl over ↦
              rw (closed, over, emit) (cut_whole b _ (emit-whole [] [] b.line_start last bs))
          | inr fits ↦
              rw (closed, fits, emit)
                (emit-whole (b.content ∷ []) b.heading_path b.line_start b.line_end bs)
        ]
      ]

  units_whole :
      (pending : List AstBlock)
      → select whole (emit_units count tables split max_tokens pending) ≡ []
  units_whole [] = refl
  units_whole (b ∷ bs) = emit-whole [] [] b.line_start b.line_end (b ∷ bs)

  closed_whole :
      (pending : List AstBlock) (rest : List SemanticChunk)
      → select whole (emit_units count tables split max_tokens pending ++ rest) ≡ select whole rest
  closed_whole pending rest =
      select-append whole (emit_units count tables split max_tokens pending) rest
      ∙ rw (units_whole pending) refl

  -- The part of `whole_chunks` that one block gives.
  flat-whole :
      (pending bs : List AstBlock)
      → select whole (flat count tables split max_tokens pending bs) ≡ whole_chunks bs
  unfolding flat
  flat-whole pending [] = units_whole pending
  flat-whole pending (b ∷ bs) =
      by_type (flat-whole [] bs) (flat-whole (pending ++ b ∷ []) bs) b.type refl
    where
      by_type :
          select whole (flat count tables split max_tokens [] bs) ≡ whole_chunks bs
          → select whole (flat count tables split max_tokens (pending ++ b ∷ []) bs)
            ≡ whole_chunks bs
          → (t : BlockType) → b.type ≡ t
          → select whole (flat count tables split max_tokens pending (b ∷ bs))
            ≡ whole_chunks (b ∷ bs)
      by_type rest later heading h = rw (h, flat) (closed_whole pending _ ∙ rest)
      by_type rest later code_block h =
          rw (h, flat)
            (closed_whole pending _ ∙ ap (◌∷◌ (code_of count tables split max_tokens b)) rest)
      by_type rest later table h =
          rw (h, flat)
            (closed_whole pending _ ∙ ap (◌∷◌ (table_of count tables split max_tokens b)) rest)
      by_type rest later document h = rw (h, flat) later
      by_type rest later paragraph h = rw (h, flat) later
      by_type rest later list h = rw (h, flat) later
      by_type rest later list_item h = rw (h, flat) later
      by_type rest later quote h = rw (h, flat) later
      by_type rest later image h = rw (h, flat) later
      by_type rest later html h = rw (h, flat) later

  -- However the text around them is packed, the chunks of type CODE and TABLE are exactly one for
  -- each code block and each table, whole and in the order of the document: none is split, lost or
  -- made up.
  pub chunk_flat-whole :
      (blocks : List AstBlock)
      → select whole (chunk_flat count tables split max_tokens blocks) ≡ whole_chunks blocks
  unfolding chunk_flat
  chunk_flat-whole blocks = flat-whole [] blocks
