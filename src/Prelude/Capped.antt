-- ===== src/Prelude/Capped.antt =====
-- The loop that keeps at most `cap` elements of each key, counting in a dict.
use Prim.Native.Nat.{ℕ, zero, suc, ◌+◌, ◌-◌}
use mathlib.Core.Path.{◌≡◌, refl, sym, ap, ◌∙◌}
use mathlib.Core.Logic.{inl, inr}
use mathlib.Core.Option.{get_or}
use mathlib.Core.List.{List, [], ◌∷◌, Sublist, nil-sublist}
use mathlib.Core.List.Sublist
use native.Mathlib.Omega.{arith}
use lrllm.Prelude.Tests.{if◌then◌else◌, leb, Bool-cases}
use lrllm.Prelude.Lists.{take, select}
use lrllm.Prelude.Keys.{BoolEq, ◌==◌}
use lrllm.Prelude.Dicts.{Dict, dict_get, dict_set, get-set}

take_none {ℓ} : {A : Type ℓ} (n : ℕ) (xs : List A) → n ≡ 0 → take n xs ≡ []
take_none zero xs h = refl
take_none (suc n) xs h = absurd (omega arith)

take_next {ℓ} :
    {A : Type ℓ} (n m : ℕ) (x : A) (xs : List A) → n ≡ m + 1 → take n (x ∷ xs) ≡ x ∷ take m xs
take_next n m x xs h = rw h (let e : m + 1 ≡ suc m = omega arith in rw e)

module _ {A K : Type 0} ⦃e : BoolEq K⦄ (key : A → K) where
  -- The elements of one key, in order.
  abbrev pub with_key : K → List A → List A
  with_key k = select (λ x. k == key x)

module _ {A K : Type 0} ⦃e : BoolEq K⦄ (key : A → K) (cap : ℕ) where
  unfoldable pub capped_from : Dict K ℕ → List A → List A
  capped_from counts [] = []
  capped_from counts (x ∷ xs) =
      let n = get_or (dict_get (key x) counts) 0 in
      let dropped = capped_from counts xs in
      let kept = x ∷ capped_from (dict_set (key x) (n + 1) counts) xs in
      if leb cap n then dropped else kept

  pub capped_from-sublist : (counts : Dict K ℕ) (xs : List A) → Sublist (capped_from counts xs) xs
  unfolding capped_from
  capped_from-sublist counts [] = nil-sublist []
  capped_from-sublist counts (x ∷ xs) =
      elim (Bool-cases (leb cap (get_or (dict_get (key x) counts) 0))) [
        | inl p ↦ rw p (Sublist.cons x (capped_from-sublist counts xs))
        | inr p ↦ rw p (
            Sublist.cons-cons x (
              capped_from-sublist (dict_set (key x) (get_or (dict_get (key x) counts) 0 + 1) counts)
                xs))
      ]

  -- Of each key the loop keeps the first elements, as many as the cap leaves.
  pub with_key-capped_from :
      (k : K) (counts : Dict K ℕ) (xs : List A)
      → with_key key k (capped_from counts xs)
        ≡ take (cap - get_or (dict_get k counts) 0) (with_key key k xs)
  unfolding capped_from
  with_key-capped_from k counts [] = sym (take_nil _)
    where
      take_nil : (n : ℕ) → take {A = A} n [] ≡ []
      take_nil zero = refl
      take_nil (suc n) = refl
  with_key-capped_from k counts (x ∷ xs) =
      let n = get_or (dict_get (key x) counts) 0 in
      let counts' = dict_set (key x) (n + 1) counts in
      ground (
        arith,
        with_key-capped_from k counts xs,
        with_key-capped_from k counts' xs,
        get-set (key x) k (n + 1) counts,
        (e.same_iff k (key x)).0,
        take_none (cap - n) (x ∷ with_key key k xs),
        take_none (cap - n) (with_key key k xs),
        take_next (cap - n) (cap - (n + 1)) x (with_key key k xs),
      )

  pub with_key-capped :
      (k : K) (xs : List A) → with_key key k (capped_from [] xs) ≡ take cap (with_key key k xs)
  unfolding dict_get
  with_key-capped k xs =
      let whole : cap - 0 ≡ cap = omega arith in
      with_key-capped_from k [] xs ∙ ap (λ n. take n (with_key key k xs)) whole
