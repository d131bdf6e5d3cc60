-- ===== src/Ingestion/Semantic/Container.antt =====
-- The parent that `_find_container` finds for a child.
use mathlib.Core.List.{Mem, mem-cons_self, mem-cons_of_mem}
use lrllm.Prelude.{
  ℕ, ◌≡◌, refl, ◌⊎◌, inl, inr, true, false, ◌&&◌, Option, none, some, List, [], ◌∷◌, All, arith,
  Bool-cases, if◌then◌else◌, subst, map, ap, Text,
}
use lrllm.Ingestion.Tables.{TableOps}
use lrllm.Ingestion.Semantic.{
  SemanticChunk, contains, narrower, better, find_from, find_container, ParentChunkNode, is_whole,
  chunk_with_parents, chunk_flat, AstBlock,
}

module _ (child : SemanticChunk) where
  abbrev pub NotBetter : SemanticChunk → SemanticChunk → Type 0
  NotBetter p q = (contains child q ≡ false) ⊎ (narrower q p ≡ false)

  -- What a search finds: none only if no parent contains the child, else a parent that contains it,
  -- none of those that do being narrower.
  abbrev pub IsNarrowest : List SemanticChunk → Option SemanticChunk → Type 0
  IsNarrowest parents none = All (λ q. contains child q ≡ false) parents
  IsNarrowest parents (some p) =
      Mem p parents × (contains child p ≡ true) × All (NotBetter p) parents

  abbrev NotBelow : Option SemanticChunk → SemanticChunk → Type 0
  NotBelow none p = Unit
  NotBelow (some b) p = narrower b p ≡ false

  abbrev FromBest : Option SemanticChunk → List SemanticChunk → Option SemanticChunk → Type 0
  FromBest best parents none = (best ≡ none) × All (λ q. contains child q ≡ false) parents
  FromBest best parents (some p) =
      ((best ≡ some p) ⊎ (Mem p parents × (contains child p ≡ true)))
      × NotBelow best p
      × All (NotBetter p) parents

  narrower_trans :
      (a b c : SemanticChunk) → narrower a b ≡ false → narrower b c ≡ false → narrower a c ≡ false
  narrower_trans a b c h k = ground arith

  narrower_asym : (a b : SemanticChunk) → narrower a b ≡ true → narrower b a ≡ false
  narrower_asym a b h = ground arith

  not_narrower_self : (a : SemanticChunk) → narrower a a ≡ false
  not_narrower_self a = ground arith

  taken-FromBest :
      (best : Option SemanticChunk) (parent : SemanticChunk) (parents : List SemanticChunk)
      (r : Option SemanticChunk)
      → contains child parent ≡ true
      → better parent best ≡ true
      → FromBest (some parent) parents r
      → FromBest best (parent ∷ parents) r
  taken-FromBest best parent parents none c b h = cc
  taken-FromBest best parent parents (some p) c b h =
      (inr (found h.0), below best b, (inr h.1, h.2))
    where
      found :
          (some parent ≡ some p) ⊎ (Mem p parents × (contains child p ≡ true))
          → Mem p (parent ∷ parents) × (contains child p ≡ true)
      found (inl e) =
          let same : parent ≡ p = cc in
          subst (λ q. Mem q (parent ∷ parents) × (contains child q ≡ true)) same (mem-cons_self, c)
      found (inr m) = (mem-cons_of_mem parent m.0, m.1)

      below : (best : Option SemanticChunk) → better parent best ≡ true → NotBelow best p
      below none k = tt
      below (some q) k = narrower_trans q parent p (narrower_asym parent q k) h.1

  kept-FromBest :
      (best : Option SemanticChunk) (parent : SemanticChunk) (parents : List SemanticChunk)
      (r : Option SemanticChunk)
      → (contains child parent && better parent best) ≡ false
      → FromBest best parents r
      → FromBest best (parent ∷ parents) r
  kept-FromBest none parent parents none b h = (h.0, (ground arith, h.1))
  kept-FromBest (some q) parent parents none b h = cc
  kept-FromBest none parent parents (some p) b h = (later h.0, tt, (inl (ground arith), h.2))
    where
      later :
          (none ≡ some p) ⊎ (Mem p parents × (contains child p ≡ true))
          → (none ≡ some p) ⊎ (Mem p (parent ∷ parents) × (contains child p ≡ true))
      later (inl e) = inl e
      later (inr m) = inr (mem-cons_of_mem parent m.0, m.1)
  kept-FromBest (some q) parent parents (some p) b h = (later h.0, h.1, (not_better, h.2))
    where
      later :
          (some q ≡ some p) ⊎ (Mem p parents × (contains child p ≡ true))
          → (some q ≡ some p) ⊎ (Mem p (parent ∷ parents) × (contains child p ≡ true))
      later (inl e) = inl e
      later (inr m) = inr (mem-cons_of_mem parent m.0, m.1)

      not_better : NotBetter p parent
      not_better = elim (Bool-cases (contains child parent)) [
        | inr out ↦ inl out
        | inl within ↦ inr (narrower_trans parent q p (ground (arith, within)) h.1)
      ]

  find_from-FromBest :
      (best : Option SemanticChunk) (parents : List SemanticChunk)
      → FromBest best parents (find_from child best parents)
  unfolding find_from
  find_from-FromBest none [] = (refl, tt)
  find_from-FromBest (some p) [] = (inl refl, not_narrower_self p, tt)
  find_from-FromBest best (parent ∷ parents) =
      elim (Bool-cases (contains child parent && better parent best)) [
        | inl up ↦
            rw (up, find_from)
              (taken-FromBest best parent parents _ (ground arith) (ground arith)
                (find_from-FromBest (some parent) parents))
        | inr down ↦
            rw (down, find_from)
              (kept-FromBest best parent parents _ down (find_from-FromBest best parents))
      ]

  -- The parent of a child is the narrowest of the chunks that have its type and contain its lines,
  -- and the child has none only if there is no such chunk.
  pub find_container-IsNarrowest :
      (parents : List SemanticChunk) → IsNarrowest parents (find_container child parents)
  unfolding find_container
  find_container-IsNarrowest parents =
      from_none (find_from child none parents) (find_from-FromBest none parents)
    where
      from_none : (r : Option SemanticChunk) → FromBest none parents r → IsNarrowest parents r
      from_none none h = h.1
      from_none (some p) h = elim h.0 [ inl e ↦ cc | inr m ↦ (m.0, m.1, h.2) ]

-- What a node tells: a code block or a table has no parent, any other child its narrowest one.
abbrev pub IsNode : List SemanticChunk → ParentChunkNode → Type 0
IsNode parents n =
    ((is_whole n.child.chunk_type ≡ true) × (n.parent ≡ none))
    ⊎ ((is_whole n.child.chunk_type ≡ false) × IsNarrowest n.child parents n.parent)

abbrev node_of : List SemanticChunk → SemanticChunk → ParentChunkNode
node_of parents child = record {
  parent = if is_whole child.chunk_type then none else find_container child parents;
  child = child;
}

node_of-IsNode :
    (parents : List SemanticChunk) (child : SemanticChunk) → IsNode parents (node_of parents child)
node_of-IsNode parents child = elim (Bool-cases (is_whole child.chunk_type)) [
  | inl whole ↦ inl (whole, rw whole refl)
  | inr part ↦ inr (part, rw part (find_container-IsNarrowest child parents))
]

nodes-IsNode :
    (parents children : List SemanticChunk)
    → All (IsNode parents) (map (node_of parents) children)
      × (map (λ n. n.child) (map (node_of parents) children) ≡ children)
nodes-IsNode parents [] = (tt, refl)
nodes-IsNode parents (child ∷ children) =
    let (nodes, same) = nodes-IsNode parents children in
    ((node_of-IsNode parents child, nodes), ap (◌∷◌ child) same)

-- The nodes of a document carry its chunks in their order; a code block or a table has no parent;
-- any other chunk has, of the chunks of the pass with the larger limit, the narrowest that has its
-- type and contains its lines, and none only if there is no such chunk.
pub chunk_with_parents-IsNode :
    (count : Text → ℕ) (tables : TableOps) (split : Text → ℕ → List Text) (limit parent_limit : ℕ)
    (blocks : List AstBlock)
    → let nodes = chunk_with_parents count tables split limit parent_limit blocks in
      All (IsNode (chunk_flat count tables split parent_limit blocks)) nodes
      × (map (λ n. n.child) nodes ≡ chunk_flat count tables split limit blocks)
unfolding chunk_with_parents
chunk_with_parents-IsNode count tables split limit parent_limit blocks =
    nodes-IsNode (chunk_flat count tables split parent_limit blocks)
      (chunk_flat count tables split limit blocks)
