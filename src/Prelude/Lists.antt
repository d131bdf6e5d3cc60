-- ===== src/Prelude/Lists.antt =====
-- Lists measured by native numbers, and predicates on lists that compute.
use Prim.Native.Nat.{ℕ, zero, suc, ◌+◌, min}
use mathlib.Core.Path.{◌≡◌, refl, sym, ap, ap₂, ◌∙◌}
use mathlib.Core.Bool.{Bool, true, ◌&&◌}
use mathlib.Core.List.{List, [], ◌∷◌, ◌++◌, map, Sublist, nil-sublist}
use mathlib.Core.List.Sublist
use mathlib.Core.List.{Sublistᴰ}
use mathlib.Core.Logic.{∥∥₁_map}
use mathlib.Core.Option.{Option, none, some}
use mathlib.Core.Logic.{◌⊎◌, inl, inr}
use native.Mathlib.Omega.{arith}
use lrllm.Prelude.Tests.{if◌then◌else◌, Bool-cases}

module _ {ℓ} {A : Type ℓ} where
  abbrev pub length : List A → ℕ
  length [] = 0
  length (x ∷ xs) = suc (length xs)

  abbrev pub get_elem? : List A → ℕ → Option A
  get_elem? [] i = none
  get_elem? (x ∷ xs) zero = some x
  get_elem? (x ∷ xs) (suc i) = get_elem? xs i

  abbrev pub take : ℕ → List A → List A
  take zero xs = []
  take (suc n) [] = []
  take (suc n) (x ∷ xs) = x ∷ take n xs

  abbrev pub drop : ℕ → List A → List A
  drop zero xs = xs
  drop (suc n) [] = []
  drop (suc n) (x ∷ xs) = drop n xs

  pub length-append : (xs ys : List A) → length (xs ++ ys) ≡ length xs + length ys
  length-append [] ys = omega arith
  length-append (x ∷ xs) ys = omega (arith, length-append xs ys)

  pub length-take : (n : ℕ) (xs : List A) → length (take n xs) ≡ min n (length xs)
  length-take zero xs = omega arith
  length-take (suc n) [] = omega arith
  length-take (suc n) (x ∷ xs) = omega (arith, length-take n xs)

  pub take-sublist : (n : ℕ) (xs : List A) → Sublist (take n xs) xs
  take-sublist zero xs = nil-sublist xs
  take-sublist (suc n) [] = nil-sublist []
  take-sublist (suc n) (x ∷ xs) = Sublist.cons-cons x (take-sublist n xs)

  -- The elements that pass a Boolean test, in order: `[x for x in xs if p(x)]`.
  abbrev pub select : (A → Bool) → List A → List A
  select p [] = []
  select p (x ∷ xs) = let rest = select p xs in if p x then x ∷ rest else rest

  pub select-sublist : (p : A → Bool) (xs : List A) → Sublist (select p xs) xs
  select-sublist p [] = nil-sublist []
  select-sublist p (x ∷ xs) = elim (Bool-cases (p x)) [
    | inl e ↦ rw e (Sublist.cons-cons x (select-sublist p xs))
    | inr e ↦ rw e (Sublist.cons x (select-sublist p xs))
  ]

module _ {ℓ κ} {A : Type ℓ} where
  -- Every element satisfies `P`.
  abbrev pub All : (A → Type κ) → List A → Type κ
  All P [] = Unit
  All P (x ∷ xs) = P x × All P xs

module _ {ℓ κ} {A : Type ℓ} {B : Type κ} where
  pub length-map : (xs : List A) (f : A → B) → length (map f xs) ≡ length xs
  length-map [] f = refl
  length-map (x ∷ xs) f = ap suc (length-map xs f)

  pub map-take : (f : A → B) (n : ℕ) (xs : List A) → map f (take n xs) ≡ take n (map f xs)
  map-take f zero xs = refl
  map-take f (suc n) [] = refl
  map-take f (suc n) (x ∷ xs) = ap (◌∷◌ (f x)) (map-take f n xs)

module _ {ℓ κ} {A : Type ℓ} (P : A → Type κ) where
  pub All-append : (xs ys : List A) → All P xs → All P ys → All P (xs ++ ys)
  All-append [] ys hx hy = hy
  All-append (x ∷ xs) ys hx hy = (hx.0, All-append xs ys hx.1 hy)

  pub All-take : (n : ℕ) (xs : List A) → All P xs → All P (take n xs)
  All-take zero xs h = tt
  All-take (suc n) [] h = tt
  All-take (suc n) (x ∷ xs) h = (h.0, All-take n xs h.1)

module _ {ℓ κ} {A : Type ℓ} {B : Type κ} where
  -- Puts an element before the list that comes with a result.
  abbrev pub prepend : A → List A × B → List A × B
  prepend x p = (x ∷ p.0, p.1)

module _ {ℓ κ} {A : Type ℓ} {B : Type κ} where
  pub map-sublist : (f : A → B) {xs ys : List A} → Sublist xs ys → Sublist (map f xs) (map f ys)
  map-sublist f s = ∥∥₁_map s go
    where
      go : {xs ys : List A} → Sublistᴰ xs ys → Sublistᴰ (map f xs) (map f ys)
      go Sublistᴰ.slnil = Sublistᴰ.slnil
      go (Sublistᴰ.cons s) = Sublistᴰ.cons (go s)
      go (Sublistᴰ.cons-cons e s) = Sublistᴰ.cons-cons (ap f e) (go s)

module _ {ℓ} {A : Type ℓ} where
  -- `all(p(x) for x in xs)`
  abbrev pub all_of : (A → Bool) → List A → Bool
  all_of p [] = true
  all_of p (x ∷ xs) = p x && all_of p xs

  pub all_of-take :
      (p : A → Bool) (n : ℕ) (xs : List A) → all_of p xs ≡ true → all_of p (take n xs) ≡ true
  all_of-take p zero xs h = refl
  all_of-take p (suc n) [] h = refl
  all_of-take p (suc n) (x ∷ xs) h = ground (arith, all_of-take p n xs)

module _ {ℓ κ μ} {A : Type ℓ} {B : Type κ} (P : B → Type μ) (f : A → B) where
  pub All-map : (xs : List A) → All (λ x. P (f x)) xs → All P (map f xs)
  All-map [] h = tt
  All-map (x ∷ xs) h = (h.0, All-map xs h.1)

  pub All-unmap : (xs : List A) → All P (map f xs) → All (λ x. P (f x)) xs
  All-unmap [] h = tt
  All-unmap (x ∷ xs) h = (h.0, All-unmap xs h.1)

module _ {ℓ κ} {A : Type ℓ} {B : Type κ} where
  pub map-cong : (f g : A → B) (xs : List A) → All (λ x. f x ≡ g x) xs → map f xs ≡ map g xs
  map-cong f g [] h = refl
  map-cong f g (x ∷ xs) h = ap₂ (◌∷◌) h.0 (map-cong f g xs h.1)

module _ {ℓ κ} {A : Type ℓ} {P Q : A → Type κ} where
  pub All-mono : ((x : A) → P x → Q x) → (xs : List A) → All P xs → All Q xs
  All-mono h [] a = tt
  All-mono h (x ∷ xs) a = (h x a.0, All-mono h xs a.1)

module _ {ℓ} {A : Type ℓ} where
  pub select-append :
      (p : A → Bool) (xs ys : List A) → select p (xs ++ ys) ≡ select p xs ++ select p ys
  select-append p [] ys = refl
  select-append p (x ∷ xs) ys = elim (Bool-cases (p x)) [
    | inl e ↦ rw e (ap (◌∷◌ x) (select-append p xs ys))
    | inr e ↦ rw e (select-append p xs ys)
  ]

  -- The first row that a query finds meets its condition.
  pub get_elem?-select :
      (p : A → Bool) (xs : List A) (x : A) → get_elem? (select p xs) 0 ≡ some x → p x ≡ true
  get_elem?-select p [] x h = cc
  get_elem?-select p (y ∷ ys) x h = elim (Bool-cases (p y)) [
    | inl e ↦
        let found : get_elem? (select p (y ∷ ys)) 0 ≡ some y = rw e refl in
        let same : y ≡ x = cc in rw (sym same) e
    | inr e ↦ get_elem?-select p ys x (sym (rw e refl) ∙ h)
  ]

pub List-cases {ℓ} :
    {A : Type ℓ} (xs : List A) → (xs ≡ []) ⊎ ((x : A) × (ys : List A) × (xs ≡ x ∷ ys))
List-cases [] = inl refl
List-cases (x ∷ xs) = inr (x, xs, refl)
