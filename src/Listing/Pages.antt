-- ===== src/Listing/Pages.antt =====
-- A client that follows the cursors meets every row of a listing once, in order.
use mathlib.Core.List.{Nodup, Nodup-cons}
use mathlib.Core.List.Nodup
use lrllm.Prelude.{
  ℕ, zero, suc, ◌-◌, ◌≤◌, ◌≡◌, refl, sym, subst, ap, ◌∙◌, inl, inr, Bool, true, false, ◌&&◌, String,
  Option, none, some, List, [], ◌∷◌, ◌++◌, map, append_assoc, select, take, drop, length, ltb, elem,
  ℕ_eq, All, sort_desc, insert_desc, IsOrder, IsDescending, sort_desc-IsDescending, Nodup-sort_desc,
  length-take, not-mem→elem, map-sublist, select-sublist, if◌then◌else◌, Bool-cases, arith,
  All-mono,
}
use lrllm.Listing.{
  Keyset, CursorText, later, key, apply_cursor, list_page, last_of, next_cursor, follow, walk,
}

later-IsOrder : IsOrder later
later-IsOrder = record {
  asym = λ x y h. ground (arith, h);
  trans = λ x y z h k. ground (arith, h, k);
}

module _ {A F : Type 0} (gt : F → F → Bool) (key_of : A → F) where
  insert_desc_first :
      (x : A) (ys : List A)
      → All (λ y. gt (key_of y) (key_of x) ≡ false) ys
      → insert_desc gt key_of x ys ≡ x ∷ ys
  unfolding insert_desc
  insert_desc_first x [] h = refl
  insert_desc_first x (y ∷ ys) h = rw (h.0) refl

  All-select : (P : A → Type 0) (p : A → Bool) (xs : List A) → All P xs → All P (select p xs)
  All-select P p [] h = tt
  All-select P p (x ∷ xs) h = elim (Bool-cases (p x)) [
    | inl e ↦ rw e (h.0, All-select P p xs h.1)
    | inr e ↦ rw e (All-select P p xs h.1)
  ]

  select-insert_desc :
      IsOrder gt
      → (p : A → Bool) (x : A) (ys : List A) → IsDescending gt key_of ys
      → select p (insert_desc gt key_of x ys)
        ≡ (if p x then insert_desc gt key_of x (select p ys) else select p ys)
  unfolding insert_desc
  select-insert_desc o p x [] h = refl
  select-insert_desc o p x (y ∷ ys) h = elim (Bool-cases (gt (key_of y) (key_of x))) [
    | inl before ↦ elim (Bool-cases (p y)) [
      | inl py ↦ elim (Bool-cases (p x)) [
        | inl px ↦
            rw (before, py, px, before) (ap (◌∷◌ y) (select-insert_desc o p x ys h.1 ∙ rw px refl))
        | inr px ↦ rw (before, py, px) (ap (◌∷◌ y) (select-insert_desc o p x ys h.1 ∙ rw px refl))
      ]
      | inr py ↦ rw (before, py) (select-insert_desc o p x ys h.1)
    ]
    | inr after ↦ elim (Bool-cases (p x)) [
      | inl px ↦
          let below : All (λ z. gt (key_of z) (key_of x) ≡ false) (y ∷ ys) =
            (after, All-mono (λ z k. o.trans (key_of z) (key_of y) (key_of x) k after) ys h.0) in
          rw (after, px)
            (sym (
              insert_desc_first x (select p (y ∷ ys))
                (All-select (λ z. gt (key_of z) (key_of x) ≡ false) p (y ∷ ys) below)))
      | inr px ↦ rw (after, px) refl
    ]
  ]

  -- A query with an order finds what a query of the ordered table finds.
  select-sort_desc :
      IsOrder gt
      → (p : A → Bool) (xs : List A)
      → sort_desc gt key_of (select p xs) ≡ select p (sort_desc gt key_of xs)
  unfolding sort_desc
  select-sort_desc o p [] = refl
  select-sort_desc o p (x ∷ xs) =
      let step =
        select-insert_desc o p x (sort_desc gt key_of xs) (sort_desc-IsDescending gt key_of o xs) in
      elim (Bool-cases (p x)) [
        | inl px ↦
            let here : select p (insert_desc gt key_of x (sort_desc gt key_of xs))
                ≡ insert_desc gt key_of x (select p (sort_desc gt key_of xs)) =
              step ∙ rw px refl in
            rw px (ap (insert_desc gt key_of x) (select-sort_desc o p xs) ∙ sym here)
        | inr px ↦
            let here : select p (insert_desc gt key_of x (sort_desc gt key_of xs))
                ≡ select p (sort_desc gt key_of xs) =
              step ∙ rw px refl in
            rw px (select-sort_desc o p xs ∙ sym here)
      ]

All-at :
    {A : Type 0} (P : A → Type 0) (before : List A) (c : A) (rest : List A)
    → All P (before ++ c ∷ rest)
    → P c
All-at P [] c rest h = h.0
All-at P (b ∷ before) c rest h = All-at P before c rest h.1

module _ {A : Type 0} (created_at : A → ℕ) (id : A → String) (uuid : String → ℕ) where
  abbrev number : A → ℕ
  number r = uuid (id r)

  abbrev after_row : A → A → Bool
  after_row c r = apply_cursor created_at id uuid (some (record { ts = created_at c; id = id c })) r

  -- Each row comes strictly before those that follow it.
  abbrev Strict : List A → Type 0
  Strict [] = Unit
  Strict (x ∷ xs) = All (λ y. after_row x y ≡ true) xs × Strict xs

  strict_below :
      (x : A) (ys : List A)
      → All (λ y. later (key created_at id uuid y) (key created_at id uuid x) ≡ false) ys
      → elem (number x) (map number ys) ≡ false
      → All (λ y. after_row x y ≡ true) ys
  strict_below x [] h k = tt
  strict_below x (y ∷ ys) h k = (ground (arith, h.0, k), strict_below x ys h.1 (ground (arith, k)))

  sorted-Strict :
      (xs : List A)
      → IsDescending later (key created_at id uuid) xs
      → Nodup (map number xs)
      → Strict xs
  sorted-Strict [] h d = tt
  sorted-Strict (x ∷ xs) h d =
      let (fresh, rest) = Nodup-cons.0 d in
      (
        strict_below x xs h.0 (not-mem→elem (number x) (map number xs) fresh),
        sorted-Strict xs h.1 rest,
      )

  select_every : (p : A → Bool) (xs : List A) → All (λ x. p x ≡ true) xs → select p xs ≡ xs
  select_every p [] h = refl
  select_every p (x ∷ xs) h = rw (h.0) (ap (◌∷◌ x) (select_every p xs h.1))

  -- In a strict list, what comes after one of its rows is the rest of it.
  select-after :
      (before : List A) (c : A) (rest : List A)
      → Strict (before ++ c ∷ rest)
      → select (after_row c) (before ++ c ∷ rest) ≡ rest
  select-after [] c rest h =
      let own : after_row c c ≡ false = ground arith in rw own (select_every (after_row c) rest h.0)
  select-after (b ∷ before) c rest h =
      let first : after_row b c ≡ true = All-at (λ y. after_row b y ≡ true) before c rest h.0 in
      let earlier : after_row c b ≡ false = ground (arith, first) in
      rw earlier (select-after before c rest h.1)

  select_both :
      (p q : A → Bool) (xs : List A) → select (λ x. p x && q x) xs ≡ select q (select p xs)
  select_both p q [] = refl
  select_both p q (x ∷ xs) = elim (Bool-cases (p x)) [
    | inr e ↦ rw e (select_both p q xs)
    | inl e ↦ elim (Bool-cases (q x)) [
      | inl f ↦ rw (e, f) (ap (◌∷◌ x) (select_both p q xs))
      | inr f ↦ rw (e, f) (select_both p q xs)
    ]
  ]

  take-take : (n : ℕ) (xs : List A) → take n (take (suc n) xs) ≡ take n xs
  take-take zero xs = refl
  take-take (suc n) [] = refl
  take-take (suc n) (x ∷ xs) = ap (◌∷◌ x) (take-take n xs)

  take-drop : (n : ℕ) (xs : List A) → take n xs ++ drop n xs ≡ xs
  take-drop zero xs = refl
  take-drop (suc n) [] = refl
  take-drop (suc n) (x ∷ xs) = ap (◌∷◌ x) (take-drop n xs)

  take_all : (n : ℕ) (xs : List A) → length xs ≤ n → take n xs ≡ xs
  take_all zero [] h = refl
  take_all zero (x ∷ xs) h = absurd (omega (arith, h))
  take_all (suc n) [] h = refl
  take_all (suc n) (x ∷ xs) h = ap (◌∷◌ x) (take_all n xs (omega (arith, h)))

  length-drop : (n : ℕ) (xs : List A) → length (drop (suc n) xs) ≤ length xs - 1
  length-drop n [] = omega arith
  length-drop zero (x ∷ xs) = omega arith
  length-drop (suc n) (x ∷ xs) = omega (arith, length-drop n xs)

  -- A page up to its last row.
  last-split :
      (r : A) (xs : List A)
      → (init : List A) × (r ∷ xs ≡ init ++ last_of created_at id uuid r xs ∷ [])
  last-split r [] = ([], refl)
  last-split r (x ∷ xs) = let (init, e) = last-split x xs in (r ∷ init, ap (◌∷◌ r) e)

  module _ (condition : A → Bool) (rows : List A) where
    -- The listing, without pages.
    abbrev pub listing : List A
    listing = sort_desc later (key created_at id uuid) (select condition rows)

    list_page-rest :
        (limit : ℕ) (cursor : Option Keyset) (rest : List A)
        → select (apply_cursor created_at id uuid cursor) listing ≡ rest
        → list_page created_at id uuid condition limit cursor rows
          ≡ (take limit rest, ltb limit (length (take (suc limit) rest)))
    unfolding list_page
    list_page-rest limit cursor rest h =
        let found : sort_desc later (key created_at id uuid)
              (select (λ r. condition r && apply_cursor created_at id uuid cursor r) rows)
            ≡ rest =
          ap (sort_desc later (key created_at id uuid))
            (select_both condition (apply_cursor created_at id uuid cursor) rows)
          ∙ select-sort_desc later (key created_at id uuid) later-IsOrder
              (apply_cursor created_at id uuid cursor) (select condition rows)
          ∙ h in
        rw found (ap (λ p. (p, ltb limit (length (take (suc limit) rest)))) (take-take limit rest))

  module _ {T : Type 0} (text : CursorText T) (condition : A → Bool) (rows : List A) where
    abbrev listed : List A
    listed = listing condition rows

    abbrev follow_on : ℕ → ℕ → List A × Bool → List A
    follow_on limit requests page =
        follow created_at id uuid text page
          (walk created_at id uuid text condition limit rows requests)

    follow-end : (limit requests : ℕ) → follow_on limit requests ([], false) ≡ []
    unfolding follow next_cursor
    follow-end limit requests = refl

    follow-last :
        (limit requests : ℕ) (r : A) (page : List A)
        → follow_on limit requests (r ∷ page, false) ≡ r ∷ page
    unfolding follow next_cursor
    follow-last limit requests r page = refl

    follow-more :
        (limit requests : ℕ) (r : A) (page : List A)
        → ((c : Keyset) → text.decode (text.encode c) ≡ some c)
        → follow_on limit requests (r ∷ page, true)
          ≡ (r ∷ page)
            ++ walk created_at id uuid text condition limit rows requests (
                some (record {
                  ts = created_at (last_of created_at id uuid r page);
                  id = id (last_of created_at id uuid r page);
                }))
    unfolding follow next_cursor
    follow-more limit requests r page back =
        rw
          (
            back (record {
              ts = created_at (last_of created_at id uuid r page);
              id = id (last_of created_at id uuid r page);
            }),
            follow,
          )
          refl

    walk-rest :
        (m requests : ℕ) (cursor : Option Keyset) (before rest : List A)
        → ((c : Keyset) → text.decode (text.encode c) ≡ some c)
        → Strict listed
        → listed ≡ before ++ rest
        → select (apply_cursor created_at id uuid cursor) listed ≡ rest
        → length rest ≤ requests
        → walk created_at id uuid text condition (suc m) rows requests cursor ≡ rest
    unfolding walk
    walk-rest m zero cursor before [] back strict split h few = refl
    walk-rest m zero cursor before (r ∷ rest) back strict split h few = absurd (omega (arith, few))
    walk-rest m (suc requests) cursor before [] back strict split h few =
        ap (follow_on (suc m) requests) (list_page-rest condition rows (suc m) cursor [] h)
        ∙ follow-end (suc m) requests
    walk-rest m (suc requests) cursor before (r ∷ rest) back strict split h few =
        let page_is = list_page-rest condition rows (suc m) cursor (r ∷ rest) h in
        let c = last_of created_at id uuid r (take m rest) in
        let left = drop m rest in
        let (init, ending) = last-split r (take m rest) in
        let whole : r ∷ rest ≡ init ++ c ∷ left =
          sym (take-drop (suc m) (r ∷ rest))
          ∙ ap (λ p. p ++ left) ending
          ∙ append_assoc init (c ∷ []) left in
        let split_at : listed ≡ (before ++ init) ++ c ∷ left =
          split ∙ ap (λ p. before ++ p) whole ∙ sym (append_assoc before init (c ∷ left)) in
        let older : select (after_row c) listed ≡ left =
          ap (select (after_row c)) split_at
          ∙ select-after (before ++ init) c left (subst Strict split_at strict) in
        let sizes = length-take (suc (suc m)) (r ∷ rest) in
        elim (Bool-cases (ltb (suc m) (length (take (suc (suc m)) (r ∷ rest))))) [
          | inr last_page ↦
              ap (follow_on (suc m) requests) page_is
              ∙ rw last_page (follow-last (suc m) requests r (take m rest))
              ∙ ap (◌∷◌ r) (take_all m rest (ground (arith, last_page, sizes)))
          | inl more ↦
              let next : Keyset = record { ts = created_at c; id = id c } in
              let others =
                walk-rest m requests (some next) ((before ++ init) ++ c ∷ []) left back strict
                  (split_at ∙ sym (append_assoc (before ++ init) (c ∷ []) left)) older
                  (omega (arith, length-drop m (r ∷ rest), few)) in
              ap (follow_on (suc m) requests) page_is
              ∙ rw more (follow-more (suc m) requests r (take m rest) back)
              ∙ ap (λ w. (r ∷ take m rest) ++ w) others
              ∙ take-drop (suc m) (r ∷ rest)
        ]

    -- A client that starts a listing without a cursor and follows the cursors that it is given, with
    -- pages of one row at least and as many requests as there are rows, receives the rows that
    -- meet the condition, newest first, each once, if no two rows have one id and decoding the text
    -- of a cursor gives the cursor back.
    pub walk-listing :
        (m requests : ℕ)
        → ((c : Keyset) → text.decode (text.encode c) ≡ some c)
        → Nodup (map number rows)
        → length (listing condition rows) ≤ requests
        → walk created_at id uuid text condition (suc m) rows requests none ≡ listing condition rows
    walk-listing m requests back distinct few =
        let kept : Nodup (map number (select condition rows)) =
          Nodup.sublist (map-sublist number (select-sublist condition rows)) distinct in
        let strict =
          sorted-Strict listed
            (sort_desc-IsDescending later (key created_at id uuid) later-IsOrder
              (select condition rows))
            (Nodup-sort_desc number later (key created_at id uuid) (select condition rows) kept) in
        walk-rest m requests none [] listed back strict refl
          (select_every (λ r. true) listed (all_true listed)) few
      where
        all_true : (xs : List A) → All (λ x. true ≡ true) xs
        all_true [] = tt
        all_true (x ∷ xs) = (refl, all_true xs)
