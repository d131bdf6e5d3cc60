-- ===== src/Prelude/Distinct.antt =====
-- The loop `seen = set(); for x in xs: if key(x) in seen: continue; seen.add(key(x)); out.append(x)`.
use mathlib.Core.Path.{◌≡◌, refl, sym, ap, ◌∙◌}
use mathlib.Core.Bool.{Bool, ◌||◌}
use mathlib.Core.Bool.{true, false}
use mathlib.Core.Logic.{inl, inr}
use mathlib.Core.Option.{Option, none, some}
use mathlib.Core.List.{List, [], ◌∷◌, ◌++◌, map, Sublist, Nodup, Nodup-cons, nil-sublist}
use mathlib.Core.List.Sublist
use mathlib.Core.List.Pairwise
use native.Mathlib.Omega.{arith}
use lrllm.Prelude.Tests.{if◌then◌else◌, Bool-cases}
use lrllm.Prelude.Keys.{BoolEq, ◌==◌, elem, not-mem_of_elem, eq_self}

or_swap : (a b : Bool) → (a || (b || false)) ≡ (b || a)
or_swap a b = ground arith

pub elem-append {κ} :
    {K : Type κ} ⦃e : BoolEq K⦄ (k : K) (xs ys : List K)
    → elem k (xs ++ ys) ≡ (elem k xs || elem k ys)
elem-append k [] ys = refl
elem-append k (x ∷ xs) ys = ground (arith, elem-append k xs ys)

module _ {ℓ κ} {A : Type ℓ} {K : Type κ} ⦃e : BoolEq K⦄ (key : A → K) where
  unfoldable pub distinct_from : List K → List A → List A
  distinct_from seen [] = []
  distinct_from seen (x ∷ xs) =
      let skipped = distinct_from seen xs in
      let kept = x ∷ distinct_from (key x ∷ seen) xs in if elem (key x) seen then skipped else kept

  -- The first element with a key.
  abbrev pub first_with : K → List A → Option A
  first_with k [] = none
  first_with k (x ∷ xs) = if k == key x then some x else first_with k xs

  pub distinct_from-sublist : (seen : List K) (xs : List A) → Sublist (distinct_from seen xs) xs
  unfolding distinct_from
  distinct_from-sublist seen [] = nil-sublist []
  distinct_from-sublist seen (x ∷ xs) = elim (Bool-cases (elem (key x) seen)) [
    | inl p ↦ rw p (Sublist.cons x (distinct_from-sublist seen xs))
    | inr p ↦ rw p (Sublist.cons-cons x (distinct_from-sublist (key x ∷ seen) xs))
  ]

  differs_of_elem :
      (k j : K) (seen : List K) → elem k seen ≡ true → elem j seen ≡ false → (k == j) ≡ false
  differs_of_elem k j seen h p = elim (Bool-cases (k == j)) [
    | inl q ↦ cc ((e.same_iff k j).0 q)
    | inr q ↦ q
  ]

  -- No key that was seen before is in the result.
  distinct_from_fresh :
      (k : K) (seen : List K) (xs : List A)
      → elem k seen ≡ true
      → elem k (map key (distinct_from seen xs)) ≡ false
  unfolding distinct_from
  distinct_from_fresh k seen [] h = refl
  distinct_from_fresh k seen (x ∷ xs) h = elim (Bool-cases (elem (key x) seen)) [
    | inl p ↦ rw p (distinct_from_fresh k seen xs h)
    | inr p ↦
        rw (p, differs_of_elem k (key x) seen h p)
          (distinct_from_fresh k (key x ∷ seen) xs (ground arith))
  ]

  pub distinct_from-Nodup : (seen : List K) (xs : List A) → Nodup (map key (distinct_from seen xs))
  unfolding distinct_from
  distinct_from-Nodup seen [] = Pairwise.nil
  distinct_from-Nodup seen (x ∷ xs) = elim (Bool-cases (elem (key x) seen)) [
    | inl p ↦ rw p (distinct_from-Nodup seen xs)
    | inr p ↦ rw p (
        Nodup-cons.1 (
          not-mem_of_elem _ _
              (distinct_from_fresh (key x) (key x ∷ seen) xs (rw (eq_self (key x)))),
          distinct_from-Nodup (key x ∷ seen) xs,
        ))
  ]

  -- The result keeps the first element of each key that was not seen before, and no other.
  pub first_with-distinct_from :
      (k : K) (seen : List K) (xs : List A)
      → first_with k (distinct_from seen xs) ≡ (if elem k seen then none else first_with k xs)
  unfolding distinct_from
  first_with-distinct_from k seen [] = ground arith
  first_with-distinct_from k seen (x ∷ xs) = ground (
    arith,
    differs_of_elem k (key x) seen,
    first_with-distinct_from k seen xs,
    first_with-distinct_from k (key x ∷ seen) xs,
    (e.same_iff k (key x)).0,
  )

  -- Only what was seen matters to the loop over distinct keys, not in which order.
  distinct_from_same :
      (s t : List K) (xs : List A)
      → ((k : K) → elem k s ≡ elem k t)
      → distinct_from s xs ≡ distinct_from t xs
  unfolding distinct_from
  distinct_from_same s t [] h = refl
  distinct_from_same s t (x ∷ xs) h = ground (
    arith,
    h (key x),
    distinct_from_same s t xs h,
    distinct_from_same (key x ∷ s) (key x ∷ t) xs (λ k. ap (λ b. k == key x || b) (h k)),
  )

  -- A key that was seen last, for one that was seen first.
  pub distinct_from_append :
      (k : K) (seen : List K) (xs : List A)
      → distinct_from (k ∷ seen) xs ≡ distinct_from (seen ++ k ∷ []) xs
  distinct_from_append k seen xs =
      distinct_from_same (k ∷ seen) (seen ++ k ∷ []) xs
        (λ j. sym (elem-append j seen (k ∷ []) ∙ or_swap (elem j seen) (j == k)))
