-- ===== src/Prelude/Sort.antt =====
-- `sorted(xs, key=key, reverse=True)`: a stable sort, the largest key first. `gt` is the comparison
-- of keys.
use mathlib.Core.Path.{◌≡◌, refl}
use mathlib.Core.Bool.{Bool, true, false}
use mathlib.Core.Logic.{inl, inr}
use mathlib.Core.List.{List, [], ◌∷◌, Perm}
use mathlib.Core.List.Perm
use lrllm.Prelude.Tests.{if◌then◌else◌, Bool-cases, if_both}
use lrllm.Prelude.Lists.{All}

-- What the program relies on in the order of its floats, which are never NaN here: `gt` is a strict
-- weak order.
pub record IsOrder {F : Type 0} (gt : F → F → Bool) : Type 0 where
  pub asym : (x y : F) → gt x y ≡ true → gt y x ≡ false
  pub trans : (x y z : F) → gt x y ≡ false → gt y z ≡ false → gt x z ≡ false

module _ {A F : Type 0} (gt : F → F → Bool) (key : A → F) where
  unfoldable pub insert_desc : A → List A → List A
  insert_desc x [] = x ∷ []
  insert_desc x (y ∷ ys) =
      let later = y ∷ insert_desc x ys in if gt (key y) (key x) then later else x ∷ y ∷ ys

  unfoldable pub sort_desc : List A → List A
  unfolding insert_desc
  sort_desc [] = []
  sort_desc (x ∷ xs) = insert_desc x (sort_desc xs)

  insert_desc-perm : (x : A) (ys : List A) → Perm (insert_desc x ys) (x ∷ ys)
  unfolding insert_desc
  insert_desc-perm x [] = Perm.refl _
  insert_desc-perm x (y ∷ ys) = elim (Bool-cases (gt (key y) (key x))) [
    | inl p ↦ rw p (Perm.trans (Perm.cons y (insert_desc-perm x ys)) (Perm.swap x y ys))
    | inr p ↦ rw p (Perm.refl _)
  ]

  pub sort_desc-perm : (xs : List A) → Perm (sort_desc xs) xs
  unfolding sort_desc
  sort_desc-perm [] = Perm.refl _
  sort_desc-perm (x ∷ xs) =
      Perm.trans (insert_desc-perm x (sort_desc xs)) (Perm.cons x (sort_desc-perm xs))

  -- No element has a larger key than one before it.
  abbrev pub IsDescending : List A → Type 0
  IsDescending [] = Unit
  IsDescending (x ∷ xs) = All (λ y. gt (key y) (key x) ≡ false) xs × IsDescending xs

  pub All-insert_desc :
      (P : A → Type 0) (x : A) (ys : List A) → P x → All P ys → All P (insert_desc x ys)
  unfolding insert_desc
  All-insert_desc P x [] px h = (px, tt)
  All-insert_desc P x (y ∷ ys) px h =
      if_both (All P) (gt (key y) (key x)) (h.0, All-insert_desc P x ys px h.1) (px, h)

  All-below :
      IsOrder gt
      → (x y : A) (ys : List A) → gt (key y) (key x) ≡ false
      → All (λ z. gt (key z) (key y) ≡ false) ys
      → All (λ z. gt (key z) (key x) ≡ false) ys
  All-below o x y [] p h = tt
  All-below o x y (z ∷ ys) p h = (o.trans (key z) (key y) (key x) h.0 p, All-below o x y ys p h.1)

  insert_desc-IsDescending :
      IsOrder gt → (x : A) (ys : List A) → IsDescending ys → IsDescending (insert_desc x ys)
  unfolding insert_desc
  insert_desc-IsDescending o x [] h = (tt, tt)
  insert_desc-IsDescending o x (y ∷ ys) h = elim (Bool-cases (gt (key y) (key x))) [
    | inl p ↦ rw p (
      All-insert_desc (λ z. gt (key z) (key y) ≡ false) x ys (o.asym (key y) (key x) p) h.0,
      insert_desc-IsDescending o x ys h.1,
    )
    | inr p ↦ rw p ((p, All-below o x y ys p h.0), h)
  ]

  pub sort_desc-IsDescending : IsOrder gt → (xs : List A) → IsDescending (sort_desc xs)
  unfolding sort_desc
  sort_desc-IsDescending o [] = tt
  sort_desc-IsDescending o (x ∷ xs) =
      insert_desc-IsDescending o x (sort_desc xs) (sort_desc-IsDescending o xs)

  -- A list that is in order stays as it is.
  pub sort_desc_sorted : (xs : List A) → IsDescending xs → sort_desc xs ≡ xs
  unfolding sort_desc
  sort_desc_sorted [] h = refl
  sort_desc_sorted (x ∷ []) h = refl
  sort_desc_sorted (x ∷ y ∷ ys) h = rw (sort_desc_sorted (y ∷ ys) h.1) (rw (h.0.0))
