-- ===== src/Prelude/Keys.antt =====
-- Keys with a Boolean equality, membership in a list of keys, and Python's dict.
use Prim.Native.Nat.{ℕ}
use Prim.Native.String.{String}
use mathlib.Core.HLevel.{⊥_prop}
use mathlib.Core.Path.{◌≡◌, refl, sym, ap, ap₂, subst}
use mathlib.Core.Logic.{◌↔◌, inl, inr}
use mathlib.Core.Bool.{Bool, true, false, ◌&&◌, ◌||◌}
use mathlib.Core.Option.{Option, none, some}
use mathlib.Core.List.{
  List, [], ◌∷◌, Mem, not-mem-nil, mem-cons_self, mem-cons_of_mem, eq-or-mem_of_mem-cons,
}
use mathlib.Core.Logic.Or
use native.Mathlib.Omega.{arith}
use text.Mathlib.Text.{◌==◌ as str_eq}
use text.Mathlib.TextEquality.{eq_iff}
use lrllm.Prelude.Lists.{All}
use lrllm.Prelude.Tests.{nat_eq, nat_eq_iff, Bool-cases}

pub record BoolEq {ℓ} (A : Type ℓ) : Type ℓ where
  pub same : A → A → Bool
  pub same_iff : (x y : A) → (same x y ≡ true) ↔ (x ≡ y)

infix 50 ◌==◌
abbrev pub ◌==◌ {ℓ} : {A : Type ℓ} ⦃k : BoolEq A⦄ → A → A → Bool
◌==◌ ⦃k = k⦄ x y = k.same x y

instance abbrev pub ℕ_eq : BoolEq ℕ
ℕ_eq = record { same = nat_eq; same_iff = nat_eq_iff }

instance abbrev pub string_eq : BoolEq String
string_eq = record { same = str_eq; same_iff = eq_iff }

module _ {ℓ} {A : Type ℓ} ⦃e : BoolEq A⦄ where
  abbrev pub option_beq : Option A → Option A → Bool
  option_beq none none = true
  option_beq none (some b) = false
  option_beq (some a) none = false
  option_beq (some a) (some b) = a == b

  pub option_beq_iff : (a b : Option A) → (option_beq a b ≡ true) ↔ (a ≡ b)
  option_beq_iff none none = ((λ _. refl), (λ _. refl))
  option_beq_iff none (some b) = ((λ h. cc), (λ h. cc))
  option_beq_iff (some a) none = ((λ h. cc), (λ h. cc))
  option_beq_iff (some a) (some b) =
      ((λ h. ap some ((e.same_iff a b).0 h)), (λ h. (e.same_iff a b).1 (cc)))

  instance abbrev pub option_eq : BoolEq (Option A)
  option_eq = record { same = option_beq; same_iff = option_beq_iff }

  pub eq_self : (a : A) → (a == a) ≡ true
  eq_self a = (e.same_iff a a).1 refl

  -- `a in xs`
  abbrev pub elem : A → List A → Bool
  elem a [] = false
  elem a (x ∷ xs) = a == x || elem a xs

  pub elem→mem : (a : A) (xs : List A) → elem a xs ≡ true → Mem a xs
  elem→mem a [] h = cc
  elem→mem a (x ∷ xs) h = elim (Bool-cases (a == x)) [
    | inl p ↦ subst (λ y. Mem a (y ∷ xs)) ((e.same_iff a x).0 p) mem-cons_self
    | inr p ↦ mem-cons_of_mem x (elem→mem a xs (ground arith))
  ]

module _ {ℓ κ} {A : Type ℓ} {B : Type κ} ⦃e : BoolEq A⦄ ⦃f : BoolEq B⦄ where
  abbrev pub pair_beq : A × B → A × B → Bool
  pair_beq (a, b) (c, d) = a == c && b == d

  pub pair_beq_iff : (p q : A × B) → (pair_beq p q ≡ true) ↔ (p ≡ q)
  pair_beq_iff (a, b) (c, d) = (
    (λ h.
        ap₂ (λ x y. (x, y)) ((e.same_iff a c).0 (ground arith))
          ((f.same_iff b d).0 (ground arith))),
    (λ h. rw ((e.same_iff a c).1 (ap (λ p. p.0) h), (f.same_iff b d).1 (ap (λ p. p.1) h))),
  )

  instance abbrev pub pair_eq : BoolEq (A × B)
  pair_eq = record { same = pair_beq; same_iff = pair_beq_iff }

module _ {ℓ} {A : Type ℓ} ⦃e : BoolEq A⦄ where
  pub not-mem_of_elem : (a : A) (xs : List A) → elem a xs ≡ false → ¬ Mem a xs
  not-mem_of_elem a [] h m = not-mem-nil m
  not-mem_of_elem a (x ∷ xs) h m =
      Or.elim ⊥_prop (eq-or-mem_of_mem-cons m)
        (λ p. let here : (a == x) ≡ true = (e.same_iff a x).1 p in ground arith)
        (not-mem_of_elem a xs (ground arith))

  pub not-mem→elem : (a : A) (xs : List A) → ¬ Mem a xs → elem a xs ≡ false
  not-mem→elem a xs h = elim (Bool-cases (elem a xs)) [
    | inl p ↦ absurd (h (elem→mem a xs p))
    | inr p ↦ p
  ]

  pub mem→elem : (a : A) (xs : List A) → Mem a xs → elem a xs ≡ true
  mem→elem a xs m = elim (Bool-cases (elem a xs)) [
    | inl p ↦ p
    | inr p ↦ absurd (not-mem_of_elem a xs p m)
  ]

  -- Two equal keys answer every test alike.
  pub beq_trans : (a b c : A) → (a == b) ≡ true → (a == c) ≡ (b == c)
  beq_trans a b c h = ap (λ x. x == c) ((e.same_iff a b).0 h)

  pub beq_comm : (a b : A) → (a == b) ≡ (b == a)
  beq_comm a b = elim (Bool-cases (a == b)) [
    | inl p ↦ rw (p, sym ((e.same_iff b a).1 (sym ((e.same_iff a b).0 p))))
    | inr p ↦ elim (Bool-cases (b == a)) [
      | inl q ↦ rw (q, (e.same_iff a b).1 (sym ((e.same_iff b a).0 q)))
      | inr q ↦ rw (p, q)
    ]
  ]

module _ {ℓ} {A : Type ℓ} ⦃e : BoolEq A⦄ where
  abbrev pub list_beq : List A → List A → Bool
  list_beq [] [] = true
  list_beq [] (b ∷ bs) = false
  list_beq (a ∷ as') [] = false
  list_beq (a ∷ as') (b ∷ bs) = a == b && list_beq as' bs

  pub list_beq_iff : (xs ys : List A) → (list_beq xs ys ≡ true) ↔ (xs ≡ ys)
  list_beq_iff [] [] = ((λ _. refl), (λ _. refl))
  list_beq_iff [] (b ∷ bs) = ((λ h. cc), (λ h. cc))
  list_beq_iff (a ∷ as') [] = ((λ h. cc), (λ h. cc))
  list_beq_iff (a ∷ as') (b ∷ bs) = (
    (λ h. ap₂ (◌∷◌) ((e.same_iff a b).0 (ground arith)) ((list_beq_iff as' bs).0 (ground arith))),
    (λ h. rw ((e.same_iff a b).1 (cc), (list_beq_iff as' bs).1 (cc))),
  )

  instance abbrev pub list_eq : BoolEq (List A)
  list_eq = record { same = list_beq; same_iff = list_beq_iff }

module _ {A : Type 0} ⦃e : BoolEq A⦄ where
  elem_later :
      (x : A) (ys xs : List A)
      → All (λ y. elem y xs ≡ true) ys
      → All (λ y. elem y (x ∷ xs) ≡ true) ys
  elem_later x [] xs h = tt
  elem_later x (y ∷ ys) xs h = (ground (arith, h.0), elem_later x ys xs h.1)

  pub elem-All : (xs : List A) → All (λ x. elem x xs ≡ true) xs
  elem-All [] = tt
  elem-All (x ∷ xs) = (rw (eq_self x), elem_later x xs xs (elem-All xs))
