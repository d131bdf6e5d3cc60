-- ===== src/Prelude/Integers.antt =====
-- Python's integers, where one may be negative: `negsuc n` is -(n + 1).
use Prim.Native.Nat.{ℕ}
use mathlib.Core.Path.{◌≡◌, ap}
use mathlib.Core.Logic.{◌↔◌}
use mathlib.Core.Bool.{Bool, true, false}
use lrllm.Prelude.Tests.{ltb, nat_eq, nat_eq_iff}
use lrllm.Prelude.Keys.{BoolEq}

pub data ℤ : Type 0 where
  pos : ℕ → ℤ
  negsuc : ℕ → ℤ

abbrev pub int_beq : ℤ → ℤ → Bool
int_beq (pos m) (pos n) = nat_eq m n
int_beq (pos m) (negsuc n) = false
int_beq (negsuc m) (pos n) = false
int_beq (negsuc m) (negsuc n) = nat_eq m n

pub int_beq_iff : (x y : ℤ) → (int_beq x y ≡ true) ↔ (x ≡ y)
int_beq_iff (pos m) (pos n) = ((λ h. ap pos ((nat_eq_iff m n).0 h)), (λ h. (nat_eq_iff m n).1 (cc)))
int_beq_iff (pos m) (negsuc n) = ((λ h. cc), (λ h. cc))
int_beq_iff (negsuc m) (pos n) = ((λ h. cc), (λ h. cc))
int_beq_iff (negsuc m) (negsuc n) =
    ((λ h. ap negsuc ((nat_eq_iff m n).0 h)), (λ h. (nat_eq_iff m n).1 (cc)))

instance abbrev pub ℤ_eq : BoolEq ℤ
ℤ_eq = record { same = int_beq; same_iff = int_beq_iff }

-- `0 <= i < n`
abbrev pub in_range : ℕ → ℤ → Bool
in_range n (pos i) = ltb i n
in_range n (negsuc i) = false
