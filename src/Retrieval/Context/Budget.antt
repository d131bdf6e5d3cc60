-- ===== src/Retrieval/Context/Budget.antt =====
-- The token budget of `build`.
use mathlib.Core.List.{Nodup}
use mathlib.Core.List.Nodup
use lrllm.Prelude.{
  ℕ, ◌+◌, ◌≤◌, ◌<◌, ◌≡◌, refl, Bool, true, false, ◌&&◌, ltb, leb, Text, List, [], ◌∷◌, map, some,
  arith, is_truthy, is_nonempty, take, length, get_elem?, prepend, Bool-cases, inl, inr, ap₂,
  take-sublist, none, Option, ◌⊎◌,
}
use lrllm.Retrieval.Models.{RankedChunk}
use lrllm.Retrieval.Context.{ContextSettings, body, own_text_only, fill, offered, build}
use lrllm.Retrieval.Context.Selection.{id_of, offered_lem}

module _ {F : Type 0} (count : Text → ℕ) (expand : Bool) (budget : ℕ) where
  -- The tokens of the bodies of some chunks.
  abbrev pub cost_of : List (RankedChunk F) → ℕ
  cost_of [] = 0
  cost_of (c ∷ cs) = count (body c expand) + cost_of cs

  -- The chunk can stand by its own text in place of its parent's.
  abbrev pub has_fallback : RankedChunk F → Bool
  has_fallback c = expand && is_truthy c.parent_content && is_nonempty c.text

  -- A chunk that finds no room: neither its body, nor its own text where that may stand for it.
  abbrev pub IsRefused : ℕ → RankedChunk F → Type 0
  IsRefused used c =
      (budget < used + count (body c expand))
      × ((has_fallback c ≡ false) ⊎ (budget < used + count c.text))

  abbrev pub StopsAt : ℕ → Option (RankedChunk F) → Type 0
  StopsAt used none = Unit
  StopsAt used (some c) = IsRefused used c

  -- What may be selected of `cs` when `used` tokens are taken: the chunks and the tokens then taken.
  pub record IsFilled (used : ℕ) (cs : List (RankedChunk F)) (r : List (RankedChunk F) × ℕ)
      : Type 0 where
    pub counted : r.1 ≡ used + cost_of r.0
    pub within : r.1 ≤ budget
    pub in_order : map id_of r.0 ≡ take (length r.0) (map id_of cs)
    pub maximal : StopsAt r.1 (get_elem? cs (length r.0))

  keep-IsFilled :
      (used : ℕ) (c c' : RankedChunk F) (cs : List (RankedChunk F)) (r : List (RankedChunk F) × ℕ)
      → c'.chunk_id ≡ c.chunk_id
      → IsFilled (used + count (body c' expand)) cs r
      → IsFilled used (c ∷ cs) (prepend c' r)
  keep-IsFilled used c c' cs r same h = record {
    counted = omega (arith, h.counted);
    within = h.within;
    in_order = ap₂ (◌∷◌) same h.in_order;
    maximal = h.maximal;
  }

  refuse-IsFilled :
      (used : ℕ) (c : RankedChunk F) (cs : List (RankedChunk F))
      → used ≤ budget
      → IsRefused used c
      → IsFilled used (c ∷ cs) ([], used)
  refuse-IsFilled used c cs h r = record {
    counted = omega arith;
    within = h;
    in_order = refl;
    maximal = r;
  }

  body-own_text : (c : RankedChunk F) (b : Bool) → body (own_text_only c) b ≡ c.text
  body-own_text c true = refl
  body-own_text c false = refl

  pub fill_lem :
      (used : ℕ) (cs : List (RankedChunk F))
      → used ≤ budget
      → IsFilled used cs (fill count expand budget used cs)
  unfolding fill
  fill_lem used [] h = record { counted = omega arith; within = h; in_order = refl; maximal = tt }
  fill_lem used (c ∷ cs) h = elim (Bool-cases (ltb budget (used + count (body c expand)))) [
    | inl long ↦ elim (Bool-cases (has_fallback c && leb (used + count c.text) budget)) [
      | inl own ↦
          rw (long, own)
            (keep-IsFilled used c (own_text_only c) cs _ refl
              (rw (body-own_text c expand) (fill_lem (used + count c.text) cs (ground arith))))
      | inr none_fits ↦ rw (long, none_fits) (refuse-IsFilled used c cs h (ground arith))
    ]
    | inr short ↦ rw short (
        keep-IsFilled used c c cs _ refl
          (fill_lem (used + count (body c expand)) cs (ground arith)))
  ]

module _ {F : Type 0} (count : Text → ℕ) (settings : ContextSettings) where
  -- The context that `build` returns has its token count, which is that of the bodies put in and is
  -- within the budget; its chunks are an initial segment of those offered, none twice; and the next
  -- one offered, if any, finds no room.
  pub build_lem :
      (ranked : List (RankedChunk F)) (specified : Bool)
      → let built = build count settings ranked specified in
        IsFilled count settings.context_expand_to_parent settings.context_token_budget 0
          (offered settings ranked specified)
          (built.chunks, built.token_count)
        × Nodup (map id_of built.chunks)
  unfolding build
  build_lem ranked specified =
      let expand = settings.context_expand_to_parent in
      let budget = settings.context_token_budget in
      let cs = offered settings ranked specified in
      let filled = fill_lem count expand budget 0 cs (omega arith) in
      (
        filled,
        rw (filled.in_order) (
            Nodup.sublist (take-sublist _ (map id_of cs))
              (offered_lem settings ranked specified).1),
      )
