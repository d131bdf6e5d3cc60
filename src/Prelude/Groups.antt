-- ===== src/Prelude/Groups.antt =====
-- The loop that groups elements by a key in a dict, and lists the keys in the order of their first
-- elements.
use mathlib.Core.Path.{◌≡◌, sym, ap, ◌∙◌}
use mathlib.Core.Bool.{Bool, true, false}
use mathlib.Core.Logic.{inl, inr}
use mathlib.Core.Option.{Option, none, some, get_or}
use mathlib.Core.List.{List, [], ◌∷◌, ◌++◌, map, append-nil, append_assoc}
use native.Mathlib.Omega.{arith}
use lrllm.Prelude.Tests.{Bool-cases, Option-cases}
use lrllm.Prelude.Keys.{BoolEq, ◌==◌, elem}
use lrllm.Prelude.Distinct.{distinct_from, elem-append, distinct_from_append}
use lrllm.Prelude.Dicts.{Dict, dict_get, dict_set, get-set}
use lrllm.Prelude.Capped.{with_key}

module _ {A K : Type 0} ⦃e : BoolEq K⦄ (key : A → K) where
  unfoldable pub group_from : Dict K (List A) → List K → List A → Dict K (List A) × List K
  group_from groups order [] = (groups, order)
  group_from groups order (x ∷ xs) =
      let k = key x in
      let old = dict_get k groups in
      group_from (dict_set k (get_or old [] ++ x ∷ []) groups)
        (elim old [ none ↦ order ++ k ∷ [] | some _ ↦ order ]) xs

  -- The group of a key holds its elements, in order.
  pub get-group_from :
      (k : K) (groups : Dict K (List A)) (order : List K) (xs : List A)
      → get_or (dict_get k (group_from groups order xs).0) []
        ≡ get_or (dict_get k groups) [] ++ with_key key k xs
  unfolding group_from
  get-group_from k groups order [] = sym (append-nil _)
  get-group_from k groups order (x ∷ xs) =
      let old = get_or (dict_get (key x) groups) [] in
      get-group_from k (dict_set (key x) (old ++ x ∷ []) groups) _ xs
      ∙ elim (Bool-cases (k == key x)) [
        | inl p ↦
            rw (get-set, p, append_assoc)
              (ap (λ j. get_or (dict_get j groups) [] ++ x ∷ with_key key k xs)
                (sym ((e.same_iff k (key x)).0 p)))
        | inr p ↦ rw (get-set, p)
      ]

  abbrev pub is_some : Option (List A) → Bool
  is_some none = false
  is_some (some v) = true

  elem-order_next :
      (groups : Dict K (List A)) (order : List K) (x : A) (v : List A)
      → ((k : K) → elem k order ≡ is_some (dict_get k groups))
      → (k : K)
      → elem k (elim (dict_get (key x) groups) [ none ↦ order ++ key x ∷ [] | some _ ↦ order ])
        ≡ is_some (dict_get k (dict_set (key x) v groups))
  elem-order_next groups order x v h k =
      rw get-set
        (ground (arith, h k, h (key x), elem-append k order (key x ∷ []), e.same_iff k (key x)))

  -- The order lists each key once, at the place of its first element.
  pub order-group_from :
      (groups : Dict K (List A)) (order : List K) (xs : List A)
      → ((k : K) → elem k order ≡ is_some (dict_get k groups))
      → (group_from groups order xs).1 ≡ order ++ map key (distinct_from key order xs)
  unfolding group_from distinct_from
  order-group_from groups order [] h = sym (append-nil order)
  order-group_from groups order (x ∷ xs) h =
      let v = get_or (dict_get (key x) groups) [] ++ x ∷ [] in
      let known = elem-order_next groups order x v h in
      elim (Option-cases (dict_get (key x) groups)) [
        | inl new ↦
            let unseen : elem (key x) order ≡ false = h (key x) ∙ ap is_some new in
            order-group_from (dict_set (key x) v groups) _ xs known
            ∙ rw (new, unseen, append_assoc)
                (ap (λ ks. order ++ key x ∷ map key ks)
                  (sym (distinct_from_append key (key x) order xs)))
        | inr (w, old) ↦
            let seen : elem (key x) order ≡ true = h (key x) ∙ ap is_some old in
            order-group_from (dict_set (key x) v groups) _ xs known ∙ rw (old, seen)
      ]
