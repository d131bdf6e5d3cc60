-- ===== src/Ingestion/Semantic/Sizes.antt =====
-- The sizes of the chunks against the limit of tokens.
use mathlib.Core.List.{Mem, mem-cons_self, mem-cons_of_mem}
use lrllm.Prelude.{
  ℕ, ◌≡◌, refl, ◌⊎◌, inl, inr, Bool, true, false, Text, codes, List, [], ◌∷◌, ◌++◌, map, join, elem,
  list_eq, ℕ_eq, arith, All, All-append, All-mono, elem-All, Bool-cases,
}
use lrllm.Ingestion.Tables.{TableOps}
use lrllm.Ingestion.Semantic.{
  BlockType, heading, code_block, table, document, paragraph, list, list_item, quote, image, html,
  AstBlock, SemanticChunk, piece_of, is_over, closes, is_whole, emit, emit_units, flat, chunk_flat,
}

module _ (count : Text → ℕ) (tables : TableOps) (split : Text → ℕ → List Text) (max_tokens : ℕ)
    (blocks : List AstBlock) where
  over : Text → Bool
  over = is_over count tables split max_tokens

  -- A chunk has at most the allowed tokens, or it is a whole code block or table, or it is a piece
  -- of a block of the document that has more.
  abbrev pub IsSized : SemanticChunk → Type 0
  IsSized c =
      (is_over count tables split max_tokens c.text ≡ false)
      ⊎ ((is_whole c.chunk_type ≡ true)
          ⊎ ((b : AstBlock) × Mem b blocks
              × (is_over count tables split max_tokens b.content ≡ true)
              × (elem c.text (split b.content max_tokens) ≡ true)))

  pieces-IsSized :
      (b : AstBlock) (ts : List Text)
      → Mem b blocks
      → is_over count tables split max_tokens b.content ≡ true
      → All (λ t. elem t (split b.content max_tokens) ≡ true) ts
      → All IsSized (map (piece_of count tables split max_tokens b) ts)
  pieces-IsSized b [] m o h = tt
  pieces-IsSized b (t ∷ ts) m o h = (inr (inr (b, m, o, h.0)), pieces-IsSized b ts m o h.1)

  cut-IsSized :
      (b : AstBlock) (rest : List SemanticChunk)
      → Mem b blocks
      → is_over count tables split max_tokens b.content ≡ true
      → All IsSized rest
      → All IsSized
          (map (piece_of count tables split max_tokens b) (split b.content max_tokens) ++ rest)
  cut-IsSized b rest m o h =
      All-append IsSized _ rest (pieces-IsSized b _ m o (elem-All (split b.content max_tokens))) h

  -- The open chunk is not too long.
  abbrev IsOpen : List Text → Type 0
  IsOpen [] = Unit
  IsOpen (p ∷ ps) = is_over count tables split max_tokens (join (codes "\n\n") (p ∷ ps)) ≡ false

  emit-IsSized :
      (parts path : List Text) (first last : ℕ) (bs : List AstBlock)
      → IsOpen parts
      → All (λ b. Mem b blocks) bs
      → All IsSized (emit count tables split max_tokens parts path first last bs)
  unfolding emit
  emit-IsSized [] path first last [] o a = tt
  emit-IsSized (p ∷ ps) path first last [] o a = (inl o, tt)
  emit-IsSized [] path first last (b ∷ bs) o a =
      elim (Bool-cases (is_over count tables split max_tokens b.content)) [
        | inl long ↦
            rw (long, emit)
              (cut-IsSized b _ a.0 long (emit-IsSized [] [] b.line_start last bs tt a.1))
        | inr short ↦
            rw (short, emit)
              (emit-IsSized (b.content ∷ []) b.heading_path b.line_start b.line_end bs short a.1)
      ]
  emit-IsSized (p ∷ ps) path first last (b ∷ bs) o a =
      elim (Bool-cases (closes count tables split max_tokens (p ∷ ps) path b)) [
        | inr fits ↦
            rw (fits, emit)
              (emit-IsSized ((p ∷ ps) ++ b.content ∷ []) path first b.line_end bs (ground arith)
                a.1)
        | inl closed ↦ elim (Bool-cases (is_over count tables split max_tokens b.content)) [
          | inl long ↦
              rw (closed, long, emit)
                (inl o, cut-IsSized b _ a.0 long (emit-IsSized [] [] b.line_start last bs tt a.1))
          | inr short ↦
              rw (closed, short, emit)
                (
                  inl o,
                  emit-IsSized (b.content ∷ []) b.heading_path b.line_start b.line_end bs short a.1,
                )
        ]
      ]

  units-IsSized :
      (pending : List AstBlock)
      → All (λ b. Mem b blocks) pending
      → All IsSized (emit_units count tables split max_tokens pending)
  units-IsSized [] a = tt
  units-IsSized (b ∷ bs) a = emit-IsSized [] [] b.line_start b.line_end (b ∷ bs) tt a

  flat-IsSized :
      (pending bs : List AstBlock)
      → All (λ b. Mem b blocks) pending
      → All (λ b. Mem b blocks) bs
      → All IsSized (flat count tables split max_tokens pending bs)
  unfolding flat
  flat-IsSized pending [] p a = units-IsSized pending p
  flat-IsSized pending (b ∷ bs) p a =
      by_type (flat-IsSized [] bs tt a.1)
        (flat-IsSized (pending ++ b ∷ []) bs
          (All-append (λ b. Mem b blocks) pending (b ∷ []) p (a.0, tt)) a.1)
        b.type refl
    where
      by_type :
          All IsSized (flat count tables split max_tokens [] bs)
          → All IsSized (flat count tables split max_tokens (pending ++ b ∷ []) bs)
          → (t : BlockType) → b.type ≡ t
          → All IsSized (flat count tables split max_tokens pending (b ∷ bs))
      by_type rest later heading h =
          rw (h, flat) (All-append IsSized _ _ (units-IsSized pending p) rest)
      by_type rest later code_block h =
          rw (h, flat) (All-append IsSized _ _ (units-IsSized pending p) (inr (inl refl), rest))
      by_type rest later table h =
          rw (h, flat) (All-append IsSized _ _ (units-IsSized pending p) (inr (inl refl), rest))
      by_type rest later document h = rw (h, flat) later
      by_type rest later paragraph h = rw (h, flat) later
      by_type rest later list h = rw (h, flat) later
      by_type rest later list_item h = rw (h, flat) later
      by_type rest later quote h = rw (h, flat) later
      by_type rest later image h = rw (h, flat) later
      by_type rest later html h = rw (h, flat) later

mem_later :
    (b : AstBlock) (bs cs : List AstBlock) → All (λ c. Mem c bs) cs → All (λ c. Mem c (b ∷ bs)) cs
mem_later b bs cs h = All-mono (λ c m. mem-cons_of_mem b m) cs h

mem-All : (bs : List AstBlock) → All (λ b. Mem b bs) bs
mem-All [] = tt
mem-All (b ∷ bs) = (mem-cons_self, mem_later b bs bs (mem-All bs))

-- Every chunk of a document has at most the allowed tokens, unless it is a code block or a table,
-- which stay whole, or a piece that the splitter made of a block with more.
pub chunk_flat-IsSized :
    (count : Text → ℕ) (tables : TableOps) (split : Text → ℕ → List Text) (max_tokens : ℕ)
    (blocks : List AstBlock)
    → All
        (IsSized count tables split max_tokens blocks)
        (chunk_flat count tables split max_tokens blocks)
unfolding chunk_flat
chunk_flat-IsSized count tables split max_tokens blocks =
    flat-IsSized count tables split max_tokens blocks [] blocks tt (mem-All blocks)
