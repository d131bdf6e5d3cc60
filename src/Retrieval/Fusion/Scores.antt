-- ===== src/Retrieval/Fusion/Scores.antt =====
-- The dict of fused scores against the formula.
use mathlib.Core.List.{Nodup}
use mathlib.Core.List.Pairwise
use lrllm.Prelude.{
  ℕ, suc, ◌+◌, ◌≡◌, refl, ap, sym, ◌∙◌, String, List, [], ◌∷◌, ◌++◌, map, Dict, keys, dict_get,
  dict_set, get-set, keys-set, entries_at, entries_at-keys, get_or, elem, ◌==◌, distinct_from,
  if◌then◌else◌, string_eq, Bool-cases, inl, inr, append-nil, append_assoc, distinct_from_append,
  keys-set-Nodup,
}
use lrllm.Retrieval.Models.{RetrievalHit}
use lrllm.Retrieval.Fusion.{Floats, score_hits, fuse_scores}

module _ {F : Type 0} where
  -- The ranks, from `rank` on, at which some hits hold a chunk.
  abbrev pub ranks_of : String → ℕ → List (RetrievalHit F) → List ℕ
  ranks_of id rank [] = []
  ranks_of id rank (hit ∷ hits) =
      let rest = ranks_of id (suc rank) hits in if id == hit.chunk_id then rank ∷ rest else rest

  abbrev pub chunk_ids : List (RetrievalHit F) → List String
  chunk_ids = map (λ h. h.chunk_id)

module _ {F : Type 0} (fl : Floats F) (rrf_k : ℕ) where
  -- `score + 1 / (rrf_k + rank)` for one rank after the other.
  abbrev pub add_ranks : F → List ℕ → F
  add_ranks score [] = score
  add_ranks score (r ∷ rs) = add_ranks (fl.add score (fl.recip (rrf_k + r))) rs

  add_ranks-append :
      (s : F) (xs ys : List ℕ) → add_ranks s (xs ++ ys) ≡ add_ranks (add_ranks s xs) ys
  add_ranks-append s [] ys = refl
  add_ranks-append s (x ∷ xs) ys = add_ranks-append (fl.add s (fl.recip (rrf_k + x))) xs ys

  get-score_hits :
      (id : String) (rank : ℕ) (hits : List (RetrievalHit F)) (scores : Dict String F)
      → get_or (dict_get id (score_hits fl rrf_k rank hits scores)) fl.zero
        ≡ add_ranks (get_or (dict_get id scores) fl.zero) (ranks_of id rank hits)
  unfolding score_hits
  get-score_hits id rank [] scores = refl
  get-score_hits id rank (hit ∷ hits) scores =
      let old = get_or (dict_get hit.chunk_id scores) fl.zero in
      get-score_hits id (suc rank) hits
        (dict_set hit.chunk_id (fl.add old (fl.recip (rrf_k + rank))) scores)
      ∙ elim (Bool-cases (id == hit.chunk_id)) [
        | inl p ↦
            rw (get-set, p)
              (ap
                (λ j.
                  add_ranks (fl.add (get_or (dict_get j scores) fl.zero) (fl.recip (rrf_k + rank)))
                    (ranks_of id (suc rank) hits))
                (sym ((string_eq.same_iff id hit.chunk_id).0 p)))
        | inr p ↦ rw (get-set, p)
      ]

  keys-score_hits :
      (rank : ℕ) (hits : List (RetrievalHit F)) (scores : Dict String F)
      → keys (score_hits fl rrf_k rank hits scores)
        ≡ keys scores ++ distinct_from (λ id. id) (keys scores) (chunk_ids hits)
  unfolding score_hits distinct_from
  keys-score_hits rank [] scores = sym (append-nil _)
  keys-score_hits rank (hit ∷ hits) scores =
      let id = hit.chunk_id in
      let new = fl.add (get_or (dict_get id scores) fl.zero) (fl.recip (rrf_k + rank)) in
      keys-score_hits (suc rank) hits (dict_set id new scores)
      ∙ elim (Bool-cases (elem id (keys scores))) [
        | inl p ↦ rw (keys-set, p)
        | inr p ↦
            rw (keys-set, p, append_assoc)
              (ap (λ ids. keys scores ++ id ∷ ids)
                (sym (distinct_from_append (λ j. j) id (keys scores) (chunk_ids hits))))
      ]

  Nodup-keys-score_hits :
      (rank : ℕ) (hits : List (RetrievalHit F)) (scores : Dict String F)
      → Nodup (keys scores)
      → Nodup (keys (score_hits fl rrf_k rank hits scores))
  unfolding score_hits
  Nodup-keys-score_hits rank [] scores h = h
  Nodup-keys-score_hits rank (hit ∷ hits) scores h =
      let id = hit.chunk_id in
      let new = fl.add (get_or (dict_get id scores) fl.zero) (fl.recip (rrf_k + rank)) in
      Nodup-keys-score_hits (suc rank) hits (dict_set id new scores)
        (keys-set-Nodup id new scores h)

  -- The chunks of the vector hits, then those of the keyword hits that are new, each once.
  abbrev pub fused_ids : List (RetrievalHit F) → List (RetrievalHit F) → List String
  fused_ids vector_hits keyword_hits =
      let first = distinct_from (λ id. id) [] (chunk_ids vector_hits) in
      first ++ distinct_from (λ id. id) first (chunk_ids keyword_hits)

  -- The sum of `1 / (rrf_k + rank)` over the ranks that a chunk has in the two lists.
  abbrev pub rrf_score : List (RetrievalHit F) → List (RetrievalHit F) → String → F
  rrf_score vector_hits keyword_hits id =
      add_ranks fl.zero (ranks_of id 1 vector_hits ++ ranks_of id 1 keyword_hits)

  -- Each chunk of either list once, with its score.
  abbrev pub scored : (String → F) → List String → Dict String F
  scored score [] = []
  scored score (id ∷ ids) = (id, score id) ∷ scored score ids

  entries_at-scored :
      (score : String → F) (d : Dict String F) (ids : List String)
      → ((id : String) → get_or (dict_get id d) fl.zero ≡ score id)
      → entries_at fl.zero d ids ≡ scored score ids
  entries_at-scored score d [] h = refl
  entries_at-scored score d (id ∷ ids) h = rw (h id, entries_at-scored score d ids h)

  get-fuse_scores :
      (v k : List (RetrievalHit F)) (id : String)
      → get_or (dict_get id (fuse_scores fl rrf_k v k)) fl.zero ≡ rrf_score v k id
  unfolding fuse_scores dict_get
  get-fuse_scores v k id =
      get-score_hits id 1 k (score_hits fl rrf_k 1 v [])
      ∙ ap (λ s. add_ranks s (ranks_of id 1 k)) (get-score_hits id 1 v [])
      ∙ sym (add_ranks-append fl.zero (ranks_of id 1 v) (ranks_of id 1 k))

  -- The fused dict holds each chunk of either list once, with the score of the formula.
  pub fuse_scores_lem :
      (v k : List (RetrievalHit F))
      → fuse_scores fl rrf_k v k ≡ scored (rrf_score v k) (fused_ids v k)
  unfolding fuse_scores
  fuse_scores_lem v k =
      let d = fuse_scores fl rrf_k v k in
      let distinct : Nodup (keys d) =
        Nodup-keys-score_hits 1 k _ (Nodup-keys-score_hits 1 v [] Pairwise.nil) in
      let ids : keys d ≡ fused_ids v k =
        keys-score_hits 1 k (score_hits fl rrf_k 1 v [])
        ∙ ap (λ js. js ++ distinct_from (λ id. id) js (chunk_ids k)) (keys-score_hits 1 v []) in
      sym (entries_at-keys fl.zero d distinct)
      ∙ ap (entries_at fl.zero d) ids
      ∙ entries_at-scored (rrf_score v k) d (fused_ids v k) (get-fuse_scores v k)
