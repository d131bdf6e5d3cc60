-- ===== src/Cleanup/Orphans.antt =====
-- What the clean-up deletes.
use lrllm.Prelude.{
  ◌≡◌, refl, sym, ap, ◌∙◌, true, not, String, List, [], ◌∷◌, ◌++◌, select, all_of, elem, string_eq,
  elem-append, append_assoc, append-nil, arith, Bool-cases, inl, inr,
}
use lrllm.Cleanup.{load_known, reconcile_orphans}

-- The ids of all batches.
abbrev pub all_ids : List (List String) → List String
all_ids [] = []
all_ids (batch ∷ batches) = batch ++ all_ids batches

abbrev pub unknown : List String → List String → List String
unknown points known = select (λ p. not (elem p known)) points

unknown-known :
    (points known more : List String)
    → all_of (λ p. elem p known) points ≡ true
    → unknown points (known ++ more) ≡ []
unknown-known [] known more h = refl
unknown-known (p ∷ points) known more h =
    let here : elem p (known ++ more) ≡ true = elem-append p known more ∙ ground arith in
    rw here (unknown-known points known more (ground arith))

unknown-all :
    (points known : List String)
    → all_of (λ p. elem p known) points ≡ true
    → unknown points known ≡ []
unknown-all points known h =
    ap (unknown points) (sym (append-nil known)) ∙ unknown-known points known [] h

load_known-unknown :
    (points known : List String) (batches : List (List String))
    → unknown points (load_known points known batches) ≡ unknown points (known ++ all_ids batches)
unfolding load_known
load_known-unknown points known [] = ap (unknown points) (sym (append-nil known))
load_known-unknown points known (batch ∷ batches) =
    elim (Bool-cases (all_of (λ p. elem p (known ++ batch)) points)) [
      | inl done ↦
          rw (done, load_known)
            (unknown-all points (known ++ batch) done
              ∙ sym (unknown-known points (known ++ batch) (all_ids batches) done)
              ∙ ap (unknown points) (append_assoc known batch (all_ids batches)))
      | inr open_points ↦
          rw (open_points, load_known)
            (load_known-unknown points (known ++ batch) batches
              ∙ ap (unknown points) (append_assoc known batch (all_ids batches)))
    ]

-- Although the search stops reading chunk ids as soon as it can, the points that it deletes are
-- exactly those whose id is that of no chunk of any batch: none of a chunk, and every other.
pub reconcile_orphans_lem :
    (points : List String) (batches : List (List String))
    → reconcile_orphans points batches ≡ unknown points (all_ids batches)
unfolding reconcile_orphans
reconcile_orphans_lem points batches = load_known-unknown points [] batches
