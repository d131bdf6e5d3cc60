-- ===== src/Ingestion/Sections/Siblings.antt =====
-- The monotonic stack of `_build_sections`, against the search that it replaces.
use lrllm.Prelude.{
  ℕ, zero, suc, ◌+◌, ◌-◌, ◌<◌, ◌≡◌, ◌≢◌, refl, ◌∙◌, ap, ap₂, sym, inl, inr, true, false, Text,
  String, Option, none, some, List, [], ◌∷◌, map, select, length, leb, ltb, get_elem?, ◌==◌, ℕ_eq,
  list_eq, eq_self, if◌then◌else◌, Dict, dict_set, arith, Bool-cases,
}
use lrllm.Ingestion.Semantic.{AstBlock}
use lrllm.Ingestion.Sections.{
  Stack, set_at, level_of, pop_while, link, unset, next_sibling, is_heading, last_line, end_line,
  sections_from, build_sections,
}

-- The level of a heading on the stack.
abbrev open_level : ℕ → Stack → Option ℕ
open_level i [] = none
open_level i ((l, p) ∷ stack) = if i == p then some l else open_level i stack

abbrev TopBelow : ℕ → Stack → Type 0
TopBelow level [] = Unit
TopBelow level ((l, p) ∷ stack) = l < level

-- From the top down, the indices and the levels of a stack fall.
abbrev Falls : ℕ → Stack → Type 0
Falls bound [] = Unit
Falls bound ((l, p) ∷ stack) = (p < bound) × TopBelow l stack × Falls p stack

-- What a heading's next sibling becomes when a heading of a level is reached.
abbrev reached_by : ℕ → ℕ → Option ℕ → Option ℕ → Option ℕ
reached_by level index none v = v
reached_by level index (some l) v = if leb level l then some index else v

abbrev still_open : ℕ → Option ℕ → Option ℕ
still_open level none = none
still_open level (some l) = if leb level l then none else some l

get-set_at_same :
    (i : ℕ) (x v : Option ℕ) (next : List (Option ℕ))
    → get_elem? next i ≡ some v
    → get_elem? (set_at i x next) i ≡ some x
unfolding set_at
get-set_at_same i x v [] h = cc
get-set_at_same zero x v (y ∷ ys) h = refl
get-set_at_same (suc i) x v (y ∷ ys) h = get-set_at_same i x v ys h

get-set_at_other :
    (i j : ℕ) (x : Option ℕ) (next : List (Option ℕ))
    → (j == i) ≡ false
    → get_elem? (set_at i x next) j ≡ get_elem? next j
unfolding set_at
get-set_at_other i j x [] h = refl
get-set_at_other zero zero x (y ∷ ys) h = ground arith
get-set_at_other zero (suc j) x (y ∷ ys) h = refl
get-set_at_other (suc i) zero x (y ∷ ys) h = refl
get-set_at_other (suc i) (suc j) x (y ∷ ys) h = get-set_at_other i j x ys (ground arith)

Falls-open_level :
    (bound i : ℕ) (stack : Stack)
    → Falls bound stack
    → leb bound i ≡ true
    → open_level i stack ≡ none
Falls-open_level bound i [] f h = refl
Falls-open_level bound i ((l, p) ∷ stack) f h =
    let apart : (i == p) ≡ false = ground (arith, f.0) in
    rw apart (Falls-open_level p i stack f.2 (ground (arith, f.0)))

-- Under a top that a level passes over, no heading closes at it.
Falls-still_open :
    (bound level i : ℕ) (stack : Stack)
    → Falls bound stack
    → TopBelow level stack
    → still_open level (open_level i stack) ≡ open_level i stack
Falls-still_open bound level i [] f t = refl
Falls-still_open bound level i ((l, p) ∷ stack) f t = elim (Bool-cases (i == p)) [
  | inl e ↦ let over : leb level l ≡ false = ground (arith, t) in rw (e, over) refl
  | inr e ↦ rw e (Falls-still_open p level i stack f.2 (later stack f.1))
]
  where
    later : (s : Stack) → TopBelow l s → TopBelow level s
    later [] h = tt
    later ((m, q) ∷ s) h = omega (arith, h, t)

still_open-reached_by :
    (level index : ℕ) (o v : Option ℕ) → still_open level o ≡ o → reached_by level index o v ≡ v
still_open-reached_by level index none v h = refl
still_open-reached_by level index (some l) v h = elim (Bool-cases (leb level l)) [
  | inl e ↦ ground (arith, e)
  | inr e ↦ rw e refl
]

-- What popping leaves: the stack falls, its top lies below the level, and for each heading whether
-- it stays open and what its next sibling becomes.
abbrev IsPopped : ℕ → ℕ → ℕ → Stack → ℕ → Option ℕ → Stack × List (Option ℕ) → Type 0
IsPopped bound level index stack i v (kept, marked) =
    Falls bound kept
    × TopBelow level kept
    × (open_level i kept ≡ still_open level (open_level i stack))
    × (get_elem? marked i ≡ some (reached_by level index (open_level i stack) v))

Falls_weaken : (p bound : ℕ) (stack : Stack) → p < bound → Falls p stack → Falls bound stack
Falls_weaken p bound [] h f = tt
Falls_weaken p bound ((l, q) ∷ stack) h f = (omega (arith, h, f.0), f.1, f.2)

pop_while-IsPopped :
    (bound level index i : ℕ) (v : Option ℕ) (stack : Stack) (next : List (Option ℕ))
    → Falls bound stack
    → get_elem? next i ≡ some v
    → IsPopped bound level index stack i v (pop_while level index stack next)
unfolding pop_while
pop_while-IsPopped bound level index i v [] next f g = (tt, tt, refl, g)
pop_while-IsPopped bound level index i v ((l, p) ∷ stack) next f g =
    elim (Bool-cases (leb level l)) [
      | inr over ↦
          let top : TopBelow level ((l, p) ∷ stack) = ground (arith, over) in
          let same = Falls-still_open bound level i ((l, p) ∷ stack) f top in
          rw (over, pop_while)
            (f, top, sym same, g ∙ ap some (sym (still_open-reached_by level index _ v same)))
      | inl pops ↦
          let below = Falls_weaken p bound stack f.0 f.2 in
          elim (Bool-cases (i == p)) [
            | inr other ↦
                let r =
                  pop_while-IsPopped bound level index i v stack (set_at p (some index) next) below
                    (get-set_at_other p i (some index) next other ∙ g) in
                rw (pops, other) r
            | inl here ↦
                let at : i ≡ p = (ℕ_eq.same_iff i p).0 here in
                let set : get_elem? (set_at p (some index) next) i ≡ some (some index) =
                  rw (sym at) (get-set_at_same i (some index) v next g) in
                let closed = Falls-open_level p i stack f.2 (ground (arith, here)) in
                let r =
                  pop_while-IsPopped bound level index i (some index) stack
                    (set_at p (some index) next) below set in
                let after : reached_by level index (some l) v ≡ some index = rw pops refl in
                let shut : still_open level (some l) ≡ none = rw pops refl in
                rw (pops, here)
                  (
                    r.0,
                    r.1,
                    r.2 ∙ ap (still_open level) closed ∙ sym shut,
                    r.3
                        ∙ ap (λ o. some (reached_by level index o (some index))) closed
                        ∙ ap some (sym after),
                  )
          ]
    ]

-- The index of the first heading that closes a level, the headings being counted from `i`.
abbrev first_closing : ℕ → ℕ → List AstBlock → Option ℕ
first_closing level i [] = none
first_closing level i (b ∷ bs) =
    if leb (level_of b) level then some i else first_closing level (suc i) bs

abbrev or_found : Option ℕ → Option ℕ → Option ℕ
or_found none v = v
or_found (some j) v = some j

-- The next sibling of a heading before `index`, once the headings from there on are linked.
abbrev linked : ℕ → List AstBlock → Option ℕ → Option ℕ → Option ℕ
linked index bs none v = v
linked index bs (some l) v = or_found (first_closing l index bs) v

linked_step :
    (index : ℕ) (b : AstBlock) (bs : List AstBlock) (o v : Option ℕ)
    → linked (suc index) bs (still_open (level_of b) o) (reached_by (level_of b) index o v)
      ≡ linked index (b ∷ bs) o v
linked_step index b bs none v = refl
linked_step index b bs (some l) v = elim (Bool-cases (leb (level_of b) l)) [
  | inl e ↦ rw e refl
  | inr e ↦ rw e refl
]

linked_nil : (index : ℕ) (o v : Option ℕ) → linked index [] o v ≡ v
linked_nil index none v = refl
linked_nil index (some l) v = refl

link-linked :
    (index i : ℕ) (v : Option ℕ) (stack : Stack) (next : List (Option ℕ)) (bs : List AstBlock)
    → Falls index stack
    → i < index
    → get_elem? next i ≡ some v
    → get_elem? (link index stack next bs) i ≡ some (linked index bs (open_level i stack) v)
unfolding link
link-linked index i v stack next [] f lt g =
    g ∙ ap some (sym (linked_nil index (open_level i stack) v))
link-linked index i v stack next (b ∷ bs) f lt g =
    let (kept, marked) = pop_while (level_of b) index stack next in
    let (falls, top, opens, sets) =
      pop_while-IsPopped index (level_of b) index i v stack next f g in
    let other : (i == index) ≡ false = ground (arith, lt) in
    link-linked (suc index) i (reached_by (level_of b) index (open_level i stack) v)
      ((level_of b, index) ∷ kept) marked bs (omega arith, top, falls) (omega (arith, lt)) sets
    ∙ rw (other, opens) (ap some (linked_step index b bs (open_level i stack) v))

-- Every heading finds its next sibling.
abbrev siblings : ℕ → List AstBlock → List (Option ℕ)
siblings index [] = []
siblings index (b ∷ bs) = first_closing (level_of b) (suc index) bs ∷ siblings (suc index) bs

or_found-none : (o : Option ℕ) → or_found o none ≡ o
or_found-none none = refl
or_found-none (some j) = refl

link_here :
    (index : ℕ) (stack : Stack) (next : List (Option ℕ)) (b : AstBlock) (bs : List AstBlock)
    → Falls index stack
    → get_elem? next index ≡ some none
    → get_elem? (link index stack next (b ∷ bs)) index
      ≡ some (first_closing (level_of b) (suc index) bs)
unfolding link
link_here index stack next b bs f g =
    let (kept, marked) = pop_while (level_of b) index stack next in
    let (falls, top, opens, sets) =
      pop_while-IsPopped index (level_of b) index index none stack next f g in
    let shut = Falls-open_level index index stack f (ground arith) in
    link-linked (suc index) index none ((level_of b, index) ∷ kept) marked bs
      (omega arith, top, falls) (omega arith) (sets ∙ rw shut refl)
    ∙ rw (eq_self index) (ap some (or_found-none _))

-- Nothing is set at an index from one on, up to a bound.
abbrev IsUnsetFrom : ℕ → ℕ → List (Option ℕ) → Type 0
IsUnsetFrom index n next =
    (j : ℕ) → leb index j ≡ true → ltb j n ≡ true → get_elem? next j ≡ some none

pub link-siblings :
    (index k : ℕ) (stack : Stack) (next : List (Option ℕ)) (bs : List AstBlock)
    → Falls index stack
    → IsUnsetFrom index (index + length bs) next
    → get_elem? (siblings index bs) k ≢ none
    → get_elem? (link index stack next bs) (index + k) ≡ get_elem? (siblings index bs) k
unfolding link
link-siblings index k stack next [] f u h = absurd (h refl)
link-siblings index zero stack next (b ∷ bs) f u h =
    ap (get_elem? (link index stack next (b ∷ bs))) (omega arith)
    ∙ link_here index stack next b bs f (u index (ground arith) (ground arith))
link-siblings index (suc k) stack next (b ∷ bs) f u h =
    let (kept, marked) = pop_while (level_of b) index stack next in
    let (falls, top, opens, sets) =
      pop_while-IsPopped index (level_of b) index index none stack next f
        (u index (ground arith) (ground arith)) in
    let later : IsUnsetFrom (suc index) (suc index + length bs) marked = λ j from below.
      let r =
        pop_while-IsPopped index (level_of b) index j none stack next f
          (u j (ground (arith, from)) (ground (arith, below))) in
      r.3 ∙ rw (Falls-open_level index j stack f (ground (arith, from))) refl in
    ap (get_elem? (link index stack next (b ∷ bs))) (omega arith)
    ∙ link-siblings (suc index) k ((level_of b, index) ∷ kept) marked bs (omega arith, top, falls)
        later h

unset-IsUnset : (n j : ℕ) → ltb j n ≡ true → get_elem? (unset n) j ≡ some none
unset-IsUnset zero j h = ground (arith, h)
unset-IsUnset (suc n) zero h = refl
unset-IsUnset (suc n) (suc j) h = unset-IsUnset n j (ground (arith, h))

-- The first heading of a level that closes one, and the line before it.
abbrev next_closing : ℕ → List AstBlock → Option AstBlock
next_closing level [] = none
next_closing level (b ∷ bs) = if leb (level_of b) level then some b else next_closing level bs

abbrev line_before : ℕ → Option AstBlock → ℕ
line_before last none = last
line_before last (some h) = h.line_start - 1

-- A section ends before the next heading of its level or a higher one, or at the last line.
abbrev pub line_ends : ℕ → List AstBlock → List ℕ
line_ends last [] = []
line_ends last (b ∷ bs) = line_before last (next_closing (level_of b) bs) ∷ line_ends last bs

-- The headings from an index on.
abbrev AreFrom : ℕ → List AstBlock → List AstBlock → Type 0
AreFrom index headings bs = (j : ℕ) → get_elem? headings (index + j) ≡ get_elem? bs j

AreFrom-later :
    (index : ℕ) (headings : List AstBlock) (b : AstBlock) (bs : List AstBlock)
    → AreFrom index headings (b ∷ bs)
    → AreFrom (suc index) headings bs
AreFrom-later index headings b bs h j = ap (get_elem? headings) (omega arith) ∙ h (suc j)

end_line-line_before :
    (last level index : ℕ) (headings bs : List AstBlock)
    → AreFrom index headings bs
    → end_line headings last (some (first_closing level index bs))
      ≡ line_before last (next_closing level bs)
end_line-line_before last level index headings [] h = refl
end_line-line_before last level index headings (b ∷ bs) h =
    elim (Bool-cases (leb (level_of b) level)) [
      | inl e ↦
          let found : get_elem? headings index ≡ some b =
            ap (get_elem? headings) (omega arith) ∙ h 0 in
          rw (e, end_line, found) refl
      | inr e ↦ rw e (
          end_line-line_before last level (suc index) headings bs
            (AreFrom-later index headings b bs h))
    ]

-- What `link` has set for the headings from an index on.
abbrev AreLinked : ℕ → List (Option ℕ) → List AstBlock → Type 0
AreLinked index next bs =
    (k : ℕ)
    → get_elem? (siblings index bs) k ≢ none
    → get_elem? next (index + k) ≡ get_elem? (siblings index bs) k

sections_from-line_ends :
    (doc : String) (headings : List AstBlock) (next : List (Option ℕ)) (last index : ℕ)
    (path_index : Dict (List Text) ℕ) (bs : List AstBlock)
    → AreFrom index headings bs
    → AreLinked index next bs
    → map (λ s. s.section.line_end) (sections_from doc headings next last index path_index bs)
      ≡ line_ends last bs
unfolding sections_from
sections_from-line_ends doc headings next last index path_index [] h l = refl
sections_from-line_ends doc headings next last index path_index (b ∷ bs) h l =
    let here : get_elem? next index ≡ some (first_closing (level_of b) (suc index) bs) =
      ap (get_elem? next) (omega arith) ∙ l 0 (λ e. cc) in
    let later : AreLinked (suc index) next bs =
      λ k e. ap (get_elem? next) (omega arith) ∙ l (suc k) e in
    let after = AreFrom-later index headings b bs h in
    ap₂ (◌∷◌)
      (ap (end_line headings last) here
        ∙ end_line-line_before last (level_of b) (suc index) headings bs after)
      (sections_from-line_ends doc headings next last (suc index)
        (dict_set b.heading_path index path_index) bs after later)

-- The sections of a document end where a search from each heading says: on the line before the next
-- heading whose level is not deeper than its own, or on the last line of the document.
pub build_sections-line_ends :
    (blocks : List AstBlock) (document_id : String)
    → map (λ s. s.section.line_end) (build_sections blocks document_id)
      ≡ line_ends (last_line blocks) (select (λ b. is_heading b.type) blocks)
unfolding build_sections next_sibling
build_sections-line_ends blocks document_id =
    let headings = select (λ b. is_heading b.type) blocks in
    sections_from-line_ends document_id headings (next_sibling headings) (last_line blocks) 0 []
      headings (λ j. ap (get_elem? headings) (omega arith))
      (λ k e.
        link-siblings 0 k [] (unset (length headings)) headings tt
          (λ j from below. unset-IsUnset (length headings) j (ground (arith, below))) e)
