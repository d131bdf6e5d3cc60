-- ===== src/Prelude/Pigeonhole.antt =====
-- Different keys from a list are no more than the list is long.
use Prim.Native.Nat.{suc, ◌≤◌}
use mathlib.Core.Path.{◌≡◌}
use mathlib.Core.Bool.{true, false}
use mathlib.Core.List.{List, [], ◌∷◌, Nodup, Nodup-cons}
use native.Mathlib.Omega.{arith}
use lrllm.Prelude.Tests.{if◌then◌else◌}
use lrllm.Prelude.Lists.{length, All}
use lrllm.Prelude.Keys.{BoolEq, ◌==◌, elem, not-mem→elem}

module _ {A : Type 0} ⦃e : BoolEq A⦄ where
  -- The list less the first occurrence of a key.
  without_first : A → List A → List A
  without_first k [] = []
  without_first k (x ∷ xs) = if k == x then xs else x ∷ without_first k xs

  length-without_first :
      (k : A) (xs : List A) → elem k xs ≡ true → length xs ≡ suc (length (without_first k xs))
  unfolding without_first
  length-without_first k [] h = cc
  length-without_first k (x ∷ xs) h = ground (arith, length-without_first k xs)

  elem-without_first :
      (j k : A) (xs : List A)
      → (j == k) ≡ false
      → elem j xs ≡ true
      → elem j (without_first k xs) ≡ true
  unfolding without_first
  elem-without_first j k [] d h = h
  elem-without_first j k (x ∷ xs) d h =
      ground (arith, elem-without_first j k xs, e.same_iff k x, e.same_iff j k, e.same_iff j x)

  All-without_first :
      (k : A) (js xs : List A)
      → elem k js ≡ false
      → All (λ j. elem j xs ≡ true) js
      → All (λ j. elem j (without_first k xs) ≡ true) js
  All-without_first k [] xs d h = tt
  All-without_first k (j ∷ js) xs d h = (
    elem-without_first j k xs (ground (arith, e.same_iff k j, e.same_iff j k)) h.0,
    All-without_first k js xs (ground arith) h.1,
  )

  pub length-le_of_distinct :
      (js xs : List A) → Nodup js → All (λ j. elem j xs ≡ true) js → length js ≤ length xs
  length-le_of_distinct [] xs d h = omega arith
  length-le_of_distinct (j ∷ js) xs d h =
      let (fresh, rest) = Nodup-cons.0 d in
      omega (
        arith,
        length-without_first j xs h.0,
        length-le_of_distinct js (without_first j xs) rest
            (All-without_first j js xs (not-mem→elem j js fresh) h.1),
      )
