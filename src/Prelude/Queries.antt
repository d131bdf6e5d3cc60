-- ===== src/Prelude/Queries.antt =====
-- The keys of the rows that a query with a condition, an order and a limit finds.
use Prim.Native.Nat.{ℕ, zero, suc}
use mathlib.Core.Path.{◌≡◌, refl, sym, ap, ◌∙◌}
use mathlib.Core.Bool.{Bool, true, false, ◌||◌, ◌&&◌}
use mathlib.Core.Logic.{◌⊎◌, inl, inr}
use mathlib.Core.List.{List, [], ◌∷◌, map, Nodup, Nodup-cons}
use mathlib.Core.List.Nodup
use native.Mathlib.Omega.{arith}
use lrllm.Prelude.Tests.{Bool-cases, if_both}
use lrllm.Prelude.Lists.{
  length, All-take, take, select, All, take-sublist, map-sublist, select-sublist,
}
use lrllm.Prelude.Keys.{BoolEq, ◌==◌, elem, not-mem→elem, not-mem_of_elem}
use lrllm.Prelude.Sort.{insert_desc, sort_desc, All-insert_desc}

module _ {A K : Type 0} ⦃e : BoolEq K⦄ (f : A → K) where
  pub elem-take :
      (k : K) (n : ℕ) (xs : List A) → elem k (map f (take n xs)) ≡ true → elem k (map f xs) ≡ true
  elem-take k zero xs h = cc
  elem-take k (suc n) [] h = h
  elem-take k (suc n) (x ∷ xs) h = ground (arith, elem-take k n xs)

  pub elem-select :
      (k : K) (p : A → Bool) (xs : List A)
      → elem k (map f (select p xs)) ≡ true
      → elem k (map f xs) ≡ true
  elem-select k p [] h = h
  elem-select k p (x ∷ xs) h = elim (Bool-cases (p x)) [
    | inl q ↦ ground (arith, q, elem-select k p xs)
    | inr q ↦ ground (arith, q, elem-select k p xs)
  ]

  module _ {F : Type 0} (gt : F → F → Bool) (key : A → F) where
    elem-insert_desc :
        (k : K) (x : A) (ys : List A)
        → elem k (map f (insert_desc gt key x ys)) ≡ (k == f x || elem k (map f ys))
    unfolding insert_desc
    elem-insert_desc k x [] = refl
    elem-insert_desc k x (y ∷ ys) = elim (Bool-cases (gt (key y) (key x))) [
      | inl p ↦ rw p (ground (arith, elem-insert_desc k x ys))
      | inr p ↦ rw p refl
    ]

    pub elem-sort_desc :
        (k : K) (xs : List A) → elem k (map f (sort_desc gt key xs)) ≡ elem k (map f xs)
    unfolding sort_desc
    elem-sort_desc k [] = refl
    elem-sort_desc k (x ∷ xs) =
        elem-insert_desc k x (sort_desc gt key xs) ∙ rw (elem-sort_desc k xs) refl

    Nodup-insert_desc :
        (x : A) (ys : List A)
        → elem (f x) (map f ys) ≡ false
        → Nodup (map f ys)
        → Nodup (map f (insert_desc gt key x ys))
    unfolding insert_desc
    Nodup-insert_desc x [] h d = Nodup-cons.1 (not-mem_of_elem _ _ h, d)
    Nodup-insert_desc x (y ∷ ys) h d = elim (Bool-cases (gt (key y) (key x))) [
      | inl p ↦ rw p (
          Nodup-cons.1 (
            not-mem_of_elem _ _ (
                elem-insert_desc (f y) x ys
                ∙ ground (
                  arith,
                  not-mem→elem _ _ (Nodup-cons.0 d).0,
                  e.same_iff (f x) (f y),
                  e.same_iff (f y) (f x),
                )),
            Nodup-insert_desc x ys (ground arith) (Nodup-cons.0 d).1,
          ))
      | inr p ↦ rw p (Nodup-cons.1 (not-mem_of_elem _ _ h, d))
    ]

    pub Nodup-sort_desc : (xs : List A) → Nodup (map f xs) → Nodup (map f (sort_desc gt key xs))
    unfolding sort_desc
    Nodup-sort_desc [] d = d
    Nodup-sort_desc (x ∷ xs) d =
        Nodup-insert_desc x (sort_desc gt key xs)
          (elem-sort_desc (f x) xs ∙ not-mem→elem _ _ (Nodup-cons.0 d).0)
          (Nodup-sort_desc xs (Nodup-cons.0 d).1)

    -- A query finds only rows that meet its condition.
    pub elem-query :
        (k : K) (n : ℕ) (p : A → Bool) (xs : List A)
        → elem k (map f (take n (sort_desc gt key (select p xs)))) ≡ true
        → elem k (map f (select p xs)) ≡ true
    elem-query k n p xs h = sym (elem-sort_desc k (select p xs)) ∙ elem-take k n _ h

    -- It finds no row twice.
    pub Nodup-query :
        (n : ℕ) (p : A → Bool) (xs : List A)
        → Nodup (map f xs)
        → Nodup (map f (take n (sort_desc gt key (select p xs))))
    Nodup-query n p xs d =
        Nodup.sublist (map-sublist f (take-sublist n _))
          (Nodup-sort_desc _ (Nodup.sublist (map-sublist f (select-sublist p xs)) d))

    length-insert_desc : (x : A) (ys : List A) → length (insert_desc gt key x ys) ≡ suc (length ys)
    unfolding insert_desc
    length-insert_desc x [] = refl
    length-insert_desc x (y ∷ ys) = elim (Bool-cases (gt (key y) (key x))) [
      | inl p ↦ rw p (ap suc (length-insert_desc x ys))
      | inr p ↦ rw p refl
    ]

    pub length-sort_desc : (xs : List A) → length (sort_desc gt key xs) ≡ length xs
    unfolding sort_desc
    length-sort_desc [] = refl
    length-sort_desc (x ∷ xs) =
        length-insert_desc x (sort_desc gt key xs) ∙ ap suc (length-sort_desc xs)

module _ {A K : Type 0} ⦃e : BoolEq K⦄ (f : A → K) (p : A → Bool) where
  -- The key of a row is not found, or the row meets the condition.
  abbrev pub OnlyIf : List A → A → Type 0
  OnlyIf xs y = (elem (f y) (map f (select p xs)) ≡ false) ⊎ (p y ≡ true)

  OnlyIf-later :
      (x : A) (xs ys : List A)
      → elem (f x) (map f ys) ≡ false
      → All (OnlyIf xs) ys
      → All (OnlyIf (x ∷ xs)) ys
  OnlyIf-later x xs [] h a = tt
  OnlyIf-later x xs (y ∷ ys) h a = (
    elim (Bool-cases (p y)) [
      | inl q ↦ inr q
      | inr q ↦ inl (elim a.0 [
        | inr q' ↦ cc
        | inl fresh ↦ elim (Bool-cases (p x)) [
          | inl r ↦ rw r (ground (arith, fresh, e.same_iff (f x) (f y), e.same_iff (f y) (f x)))
          | inr r ↦ rw r fresh
        ]
      ])
    ],
    OnlyIf-later x xs ys (ground arith) a.1,
  )

  -- With distinct keys, a selection has the keys of rows that meet the condition, and no other.
  pub select-OnlyIf : (xs : List A) → Nodup (map f xs) → All (OnlyIf xs) xs
  select-OnlyIf [] d = tt
  select-OnlyIf (x ∷ xs) d =
      let fresh = not-mem→elem _ _ (Nodup-cons.0 d).0 in
      (
        elim (Bool-cases (p x)) [
          | inl q ↦ inr q
          | inr q ↦ inl (
              rw q (elim (Bool-cases (elem (f x) (map f (select p xs)))) [
                | inl old ↦ absurd (ground (arith, fresh, elem-select f (f x) p xs old))
                | inr new ↦ new
              ]))
        ],
        OnlyIf-later x xs xs fresh (select-OnlyIf xs (Nodup-cons.0 d).1),
      )

module _ {A K : Type 0} ⦃e : BoolEq K⦄ (f : A → K) (q : K → Bool) where
  -- A selection by the key.
  pub elem-select_key :
      (k : K) (xs : List A) → elem k (map f (select (λ x. q (f x)) xs)) ≡ (elem k (map f xs) && q k)
  elem-select_key k [] = refl
  elem-select_key k (x ∷ xs) = elim (Bool-cases (k == f x)) [
    | inl same ↦ elim (Bool-cases (q (f x))) [
      | inl r ↦ rw (r, same, (e.same_iff k (f x)).0 same, r) refl
      | inr r ↦
          let path = (e.same_iff k (f x)).0 same in
          rw (r, elem-select_key k xs, path, r) (ground arith)
    ]
    | inr other ↦ elim (Bool-cases (q (f x))) [
      | inl r ↦ rw (r, other) (elem-select_key k xs)
      | inr r ↦ rw (r, other) (elem-select_key k xs)
    ]
  ]

module _ {A K : Type 0} ⦃e : BoolEq K⦄ (f : A → K) where
  -- A row is the only one with its key.
  abbrev pub IsOnly : A → A → Type 0
  IsOnly x y = ((f x == f y) ≡ false) ⊎ (y ≡ x)

  none_same : (x : A) (ys : List A) → elem (f x) (map f ys) ≡ false → All (λ y. IsOnly x y) ys
  none_same x [] h = tt
  none_same x (y ∷ ys) h = (inl (ground arith), none_same x ys (ground arith))

  add_first :
      (x : A) (xs ys : List A)
      → elem (f x) (map f ys) ≡ false
      → All (λ y. All (IsOnly y) xs) ys
      → All (λ y. All (IsOnly y) (x ∷ xs)) ys
  add_first x xs [] h a = tt
  add_first x xs (y ∷ ys) h a = (
    (inl (ground (arith, e.same_iff (f x) (f y), e.same_iff (f y) (f x))), a.0),
    add_first x xs ys (ground arith) a.1,
  )

  pub rows-IsOnly : (xs : List A) → Nodup (map f xs) → All (λ x. All (IsOnly x) xs) xs
  rows-IsOnly [] d = tt
  rows-IsOnly (x ∷ xs) d =
      let fresh = not-mem→elem _ _ (Nodup-cons.0 d).0 in
      (
        (inr refl, none_same x xs fresh),
        add_first x xs xs fresh (rows-IsOnly xs (Nodup-cons.0 d).1),
      )

module _ {A F : Type 0} (P : A → Type 0) (gt : F → F → Bool) (key : A → F) where
  All-select : (p : A → Bool) (xs : List A) → All P xs → All P (select p xs)
  All-select p [] h = tt
  All-select p (x ∷ xs) h = if_both (All P) (p x) (h.0, All-select p xs h.1) (All-select p xs h.1)

  All-sort_desc : (xs : List A) → All P xs → All P (sort_desc gt key xs)
  unfolding sort_desc
  All-sort_desc [] h = tt
  All-sort_desc (x ∷ xs) h =
      All-insert_desc gt key P x (sort_desc gt key xs) h.0 (All-sort_desc xs h.1)

  pub All-query :
      (n : ℕ) (p : A → Bool) (xs : List A)
      → All P xs
      → All P (take n (sort_desc gt key (select p xs)))
  All-query n p xs h = All-take P n _ (All-sort_desc _ (All-select p xs h))
