-- ===== src/Retrieval/Context/Selection.antt =====
-- What `_dedup`, `_apply_version_caps` and `_collapse_to_parents` keep.
use mathlib.Core.List.{Sublist, Nodup}
use mathlib.Core.List.Sublist
use mathlib.Core.List.Nodup
use mathlib.Mathlib.Data.List.Nodup.{of_map}
use lrllm.Prelude.{
  ℕ, ◌≡◌, refl, sym, subst, ap, ap₂, ◌∙◌, drop, codes, ◌++◌, ◌∷◌, ◌==◌, BoolEq, ◌↔◌, none, some,
  true, false, ◌&&◌, is_truthy, name_truthy, Bool-cases, Option-cases, inl, inr, Bool, String, Text,
  List, [], map, if◌then◌else◌, distinct_from-sublist, distinct_from-Nodup, first_with,
  first_with-distinct_from, ℕ_eq, if_both, capped_from-sublist, with_key, with_key-capped,
  map-sublist, take, string_eq, list_eq, option_eq, pair_eq,
}
use lrllm.Retrieval.Models.{RankedChunk}
use lrllm.Retrieval.Context.{
  ContextSettings, VersionKey, version_key, dedup, parent_key, collapse_to_parents,
  apply_version_caps, offered,
}

-- What a hit stands for: the parent whose text it brings, or itself.
pub data Block : Type 0 where
  parent_block own_block : Text → Block

abbrev pub block_beq : Block → Block → Bool
block_beq (parent_block p) (parent_block q) = p == q
block_beq (parent_block p) (own_block q) = false
block_beq (own_block p) (parent_block q) = false
block_beq (own_block p) (own_block q) = p == q

abbrev text_of : Block → Text
text_of (parent_block p) = p
text_of (own_block p) = p

pub block_beq_iff : (x y : Block) → (block_beq x y ≡ true) ↔ (x ≡ y)
block_beq_iff (parent_block p) (parent_block q) = (
  (λ h. ap parent_block ((list_eq.same_iff p q).0 h)),
  (λ h. (list_eq.same_iff p q).1 (ap text_of h)),
)
block_beq_iff (parent_block p) (own_block q) = ((λ h. cc), (λ h. cc))
block_beq_iff (own_block p) (parent_block q) = ((λ h. cc), (λ h. cc))
block_beq_iff (own_block p) (own_block q) = (
  (λ h. ap own_block ((list_eq.same_iff p q).0 h)),
  (λ h. (list_eq.same_iff p q).1 (ap text_of h)),
)

instance abbrev pub block_eq : BoolEq Block
block_eq = record { same = block_beq; same_iff = block_beq_iff }

abbrev key_of : Block → Text
key_of (parent_block p) = codes "parent:" ++ p
key_of (own_block id) = codes "chunk:" ++ id

key_of-injective : (x y : Block) → key_of x ≡ key_of y → x ≡ y
key_of-injective (parent_block p) (parent_block q) h = ap (λ t. parent_block (drop 7 t)) h
key_of-injective (parent_block p) (own_block q) h =
    let e : true ≡ false = ap (λ t. take 1 t == codes "p") h in cc
key_of-injective (own_block p) (parent_block q) h =
    let e : false ≡ true = ap (λ t. take 1 t == codes "p") h in cc
key_of-injective (own_block p) (own_block q) h = ap (λ t. own_block (drop 6 t)) h

module _ {F : Type 0} where
  abbrev pub id_of : RankedChunk F → String
  id_of c = c.chunk_id

  -- Deduplication leaves the hits in their order, no chunk id twice, and of every chunk id the
  -- first (best ranked) hit.
  pub dedup_lem :
      (ranked : List (RankedChunk F))
      → Nodup (map id_of (dedup ranked))
        × Sublist (dedup ranked) ranked
        × ((id : String) → first_with id_of id (dedup ranked) ≡ first_with id_of id ranked)
  unfolding dedup
  dedup_lem ranked = (
    distinct_from-Nodup id_of [] ranked,
    distinct_from-sublist id_of [] ranked,
    (λ id. first_with-distinct_from id_of id [] ranked),
  )

  -- The version caps leave the chunks in their order, and of every (product, version) exactly its
  -- first `limit` chunks.
  pub apply_version_caps_lem :
      (chunks : List (RankedChunk F)) (limit : ℕ)
      → Sublist (apply_version_caps chunks limit) chunks
        × ((k : VersionKey)
            → with_key version_key k (apply_version_caps chunks limit)
              ≡ take limit (with_key version_key k chunks))
  unfolding apply_version_caps
  apply_version_caps_lem chunks limit = (
    capped_from-sublist version_key limit [] chunks,
    (λ k. with_key-capped version_key limit k chunks),
  )

  -- A hit with the text of its parent stands for the parent, any other for itself.
  abbrev pub block_of : RankedChunk F → Block
  block_of c = elim c.parent_chunk_id [
    | none ↦ own_block (codes c.chunk_id)
    | some p ↦
        if is_truthy c.parent_content && name_truthy (some p)
        then parent_block (codes p)
        else own_block (codes c.chunk_id)
  ]

  parent_key-block_of : (c : RankedChunk F) → parent_key c ≡ key_of (block_of c)
  parent_key-block_of c = elim (Option-cases c.parent_chunk_id) [
    | inl e ↦ rw e refl
    | inr (p, e) ↦ elim (Bool-cases (is_truthy c.parent_content && name_truthy (some p))) [
      | inl t ↦ rw (e, t) refl
      | inr t ↦ rw (e, t) refl
    ]
  ]

  parent_keys : (cs : List (RankedChunk F)) → map parent_key cs ≡ map key_of (map block_of cs)
  parent_keys [] = refl
  parent_keys (c ∷ cs) = ap₂ (λ k ks. k ∷ ks) (parent_key-block_of c) (parent_keys cs)

  same_test : (x : Block) (c : RankedChunk F) → (x == block_of c) ≡ (key_of x == parent_key c)
  same_test x c = elim (Bool-cases (x == block_of c)) [
    | inl e ↦
        e
        ∙ sym (
            (list_eq.same_iff (key_of x) (parent_key c)).1
              (ap key_of ((block_eq.same_iff x (block_of c)).0 e) ∙ sym (parent_key-block_of c)))
    | inr e ↦ elim (Bool-cases (key_of x == parent_key c)) [
      | inl t ↦
          let same =
            key_of-injective x (block_of c)
              ((list_eq.same_iff (key_of x) (parent_key c)).0 t ∙ parent_key-block_of c) in
          let found = (block_eq.same_iff x (block_of c)).1 same in cc
      | inr t ↦ e ∙ sym t
    ]
  ]

  first_with-block_of :
      (x : Block) (cs : List (RankedChunk F))
      → first_with block_of x cs ≡ first_with parent_key (key_of x) cs
  first_with-block_of x [] = refl
  first_with-block_of x (c ∷ cs) =
      ap₂ (λ (t : Bool) rest. if t then some c else rest) (same_test x c) (first_with-block_of x cs)

  -- Collapsing leaves the chunks in their order, and of all the chunks that bring the text of one
  -- parent only the first; a chunk without a parent, or whose parent has no text, is dropped only
  -- for one of its own id before it.
  pub collapse_to_parents_lem :
      (chunks : List (RankedChunk F))
      → Nodup (map block_of (collapse_to_parents chunks))
        × Sublist (collapse_to_parents chunks) chunks
        × ((x : Block)
            → first_with block_of x (collapse_to_parents chunks) ≡ first_with block_of x chunks)
  unfolding collapse_to_parents
  collapse_to_parents_lem chunks = (
    of_map key_of (subst Nodup (parent_keys _) (distinct_from-Nodup parent_key [] chunks)),
    distinct_from-sublist parent_key [] chunks,
    (λ x.
        first_with-block_of x (collapse_to_parents chunks)
        ∙ first_with-distinct_from parent_key (key_of x) [] chunks
        ∙ sym (first_with-block_of x chunks)),
  )

  -- What is offered to the budget are hits in their order, none twice.
  pub offered_lem :
      (settings : ContextSettings) (ranked : List (RankedChunk F)) (specified : Bool)
      → Sublist (offered settings ranked specified) ranked
        × Nodup (map id_of (offered settings ranked specified))
  unfolding offered
  offered_lem settings ranked specified =
      let inner : Sublist (offered settings ranked specified) (dedup ranked) =
        if_both (λ cs. Sublist cs (dedup ranked)) settings.context_expand_to_parent
          (Sublist.trans (collapse_to_parents_lem (capped ranked)).1 (capped_sublist ranked))
          (capped_sublist ranked) in
      (
        Sublist.trans inner (dedup_lem ranked).1,
        Nodup.sublist (map-sublist id_of inner) (dedup_lem ranked).0,
      )
    where
      capped : List (RankedChunk F) → List (RankedChunk F)
      capped hits =
          if specified then dedup hits else apply_version_caps (dedup hits) settings.per_version_cap

      capped_sublist : (hits : List (RankedChunk F)) → Sublist (capped hits) (dedup hits)
      capped_sublist hits =
          if_both (λ cs. Sublist cs (dedup hits)) specified (Sublist.refl (dedup hits))
            (apply_version_caps_lem (dedup hits) settings.per_version_cap).0
