-- ===== src/Retrieval/Fusion/SinglePath.antt =====
-- The order of the candidates when only one of the two lists has hits.
use mathlib.Core.List.{Nodup, Nodup-cons}
use mathlib.Core.List.{map-append}
use lrllm.Prelude.{
  ℕ, suc, ◌+◌, ◌<◌, ◌≤◌, ◌≡◌, refl, ap, sym, ◌∙◌, false, String, List, [], ◌∷◌, ◌++◌, arith, Dict,
  keys, dict_get, dict_set, get_or, elem, string_eq, take, All, IsDescending, sort_desc,
  sort_desc_sorted, map-take, append_assoc, append-nil, not-mem→elem, elem-append, beq_comm,
}
use lrllm.Retrieval.Models.{RetrievalHit}
use lrllm.Retrieval.Fusion.{Floats, score_hits, rrf_fuse}
use lrllm.Retrieval.Fusion.Scores.{chunk_ids}

module _ {F : Type 0} (fl : Floats F) (rrf_k : ℕ) where
  abbrev score_of : String × F → F
  score_of item = item.1

  -- The hits of one list, scored by their ranks alone.
  abbrev by_rank : ℕ → List (RetrievalHit F) → Dict String F
  by_rank rank [] = []
  by_rank rank (hit ∷ hits) =
      (hit.chunk_id, fl.add fl.zero (fl.recip (rrf_k + rank))) ∷ by_rank (suc rank) hits

  ids-by_rank :
      (rank : ℕ) (hits : List (RetrievalHit F)) → keys (by_rank rank hits) ≡ chunk_ids hits
  ids-by_rank rank [] = refl
  ids-by_rank rank (hit ∷ hits) = ap (◌∷◌ hit.chunk_id) (ids-by_rank (suc rank) hits)

  set_fresh :
      (id : String) (s : F) (d : Dict String F)
      → elem id (keys d) ≡ false
      → dict_set id s d ≡ d ++ (id, s) ∷ []
  unfolding dict_set
  set_fresh id s [] h = refl
  set_fresh id s ((j, t) ∷ d) h = ground (arith, set_fresh id s d)

  get_fresh :
      (id : String) (d : Dict String F)
      → elem id (keys d) ≡ false
      → get_or (dict_get id d) fl.zero ≡ fl.zero
  unfolding dict_get
  get_fresh id [] h = refl
  get_fresh id ((j, t) ∷ d) h = ground (arith, get_fresh id d)

  -- Ids that are neither among some keys nor twice among themselves.
  abbrev IsFresh : List String → List String → Type 0
  IsFresh seen [] = Unit
  IsFresh seen (id ∷ ids) = (elem id seen ≡ false) × IsFresh (seen ++ id ∷ []) ids

  fresh_next :
      (seen : List String) (id : String) (ids : List String)
      → All (λ j. elem j seen ≡ false) ids
      → elem id ids ≡ false
      → All (λ j. elem j (seen ++ id ∷ []) ≡ false) ids
  fresh_next seen id [] h d = tt
  fresh_next seen id (j ∷ ids) h d = (
    elem-append j seen (id ∷ []) ∙ rw (h.0, beq_comm j id) (ground arith),
    fresh_next seen id ids h.1 (ground arith),
  )

  IsFresh-later :
      (seen : List String) (ids : List String)
      → All (λ id. elem id seen ≡ false) ids
      → Nodup ids
      → IsFresh seen ids
  IsFresh-later seen [] h d = tt
  IsFresh-later seen (id ∷ ids) h d =
      let (fresh, rest) = Nodup-cons.0 d in
      (
        h.0,
        IsFresh-later (seen ++ id ∷ []) ids (fresh_next seen id ids h.1 (not-mem→elem id ids fresh))
            rest,
      )

  score_hits-fresh :
      (rank : ℕ) (hits : List (RetrievalHit F)) (d : Dict String F)
      → IsFresh (keys d) (chunk_ids hits)
      → score_hits fl rrf_k rank hits d ≡ d ++ by_rank rank hits
  unfolding score_hits
  score_hits-fresh rank [] d h = sym (append-nil d)
  score_hits-fresh rank (hit ∷ hits) d h =
      let id = hit.chunk_id in
      rw (get_fresh id d h.0, set_fresh id _ d h.0)
        (score_hits-fresh (suc rank) hits (d ++ (id, fl.add fl.zero (fl.recip (rrf_k + rank))) ∷ [])
            (rw (map-append (λ (item : String × F). item.0) d) h.1)
          ∙ append_assoc d _ _)

  none_seen : (ids : List String) → All (λ id. elem id [] ≡ false) ids
  none_seen [] = tt
  none_seen (id ∷ ids) = (refl, none_seen ids)

  -- The score of a later rank is not above that of an earlier one.
  abbrev pub Falls : Type 0
  Falls =
      (m n : ℕ)
      → 0 < m
      → m ≤ n
      → fl.gt (fl.add fl.zero (fl.recip n)) (fl.add fl.zero (fl.recip m)) ≡ false

  below_rank :
      Falls
      → (rank next : ℕ) (hits : List (RetrievalHit F)) → 0 < rank
      → rank ≤ next
      → All
          (λ item. fl.gt (score_of item) (fl.add fl.zero (fl.recip (rrf_k + rank))) ≡ false)
          (by_rank next hits)
  below_rank falls rank next [] p h = tt
  below_rank falls rank next (hit ∷ hits) p h = (
    falls (rrf_k + rank) (rrf_k + next) (omega arith) (omega arith),
    below_rank falls rank (suc next) hits p (omega arith),
  )

  by_rank-IsDescending :
      Falls
      → (rank : ℕ) (hits : List (RetrievalHit F)) → 0 < rank
      → IsDescending fl.gt score_of (by_rank rank hits)
  by_rank-IsDescending falls rank [] p = tt
  by_rank-IsDescending falls rank (hit ∷ hits) p = (
    below_rank falls rank (suc rank) hits p (omega arith),
    by_rank-IsDescending falls (suc rank) hits (omega arith),
  )

  -- With one of the two lists empty, as after a failed recall, the candidates are the first `limit`
  -- chunks of the other list in its own order, where that list holds no chunk twice and a later rank
  -- scores no more than an earlier one.
  pub rrf_fuse_single :
      (hits : List (RetrievalHit F)) (limit : ℕ)
      → Nodup (chunk_ids hits)
      → Falls
      → (keys (rrf_fuse fl rrf_k hits [] limit) ≡ take limit (chunk_ids hits))
        × (keys (rrf_fuse fl rrf_k [] hits limit) ≡ take limit (chunk_ids hits))
  unfolding rrf_fuse
  rrf_fuse_single hits limit distinct falls = (path, path)
    where
      path :
          keys (take limit (sort_desc fl.gt score_of (score_hits fl rrf_k 1 hits [])))
          ≡ take limit (chunk_ids hits)
      path =
          rw
            (
              score_hits-fresh 1 hits [] (IsFresh-later [] (chunk_ids hits) (none_seen _) distinct),
              sort_desc_sorted fl.gt score_of _ (by_rank-IsDescending falls 1 hits (omega arith)),
            )
            (map-take (λ item. item.0) limit (by_rank 1 hits)
              ∙ ap (take limit) (ids-by_rank 1 hits))
