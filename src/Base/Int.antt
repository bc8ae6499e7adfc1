-- ===== src/Base/Int.antt =====
-- Signed integers over the native numbers. `negsuc n` is -(n + 1).
use Prim.Native.Nat.{ℕ, suc, ◌+◌, ◌-◌, ◌%◌}
use mathlib.Core.Path.{◌≡◌}
use mathlib.Core.Logic.{◌↔◌}
use mathlib.Core.Bool.{Bool, true, false}
use native.Mathlib.Omega.{arith}
use openstack_mimic_componen.Base.Tests.{if◌then◌else◌, leb, ◌==◌}

pub data ℤ : Type 0 where
  pos : ℕ → ℤ
  negsuc : ℕ → ℤ

abbrev pub pos_part : ℤ → ℕ
pos_part (pos n) = n
pos_part (negsuc n) = 0

abbrev pub neg_part : ℤ → ℕ
neg_part (pos n) = 0
neg_part (negsuc n) = suc n

-- a - b, as an integer.
abbrev pub sub_ℕ : ℕ → ℕ → ℤ
sub_ℕ a b = if leb b a then pos (a - b) else negsuc (b - a - 1)

infixl 65 ◌+ℤ◌ ◌-ℤ◌
abbrev pub ◌+ℤ◌ : ℤ → ℤ → ℤ
a +ℤ b = sub_ℕ (pos_part a + pos_part b) (neg_part a + neg_part b)

abbrev pub ◌-ℤ◌ : ℤ → ℤ → ℤ
a -ℤ b = sub_ℕ (pos_part a + neg_part b) (neg_part a + pos_part b)

-- The remainder of a division that rounds to 0, as in C: its sign is that of `a`.
abbrev pub rem_ℤ : ℤ → ℕ → ℤ
rem_ℤ (pos a) n = pos (a % n)
rem_ℤ (negsuc a) n = sub_ℕ 0 (suc a % n)

abbrev pub eq_ℤ : ℤ → ℤ → Bool
eq_ℤ (pos a) (pos b) = a == b
eq_ℤ (negsuc a) (negsuc b) = a == b
eq_ℤ (pos a) (negsuc b) = false
eq_ℤ (negsuc a) (pos b) = false

pub eq_ℤ_iff : (a b : ℤ) → (eq_ℤ a b ≡ true) ↔ (a ≡ b)
eq_ℤ_iff (pos a) (pos b) = ground arith
eq_ℤ_iff (negsuc a) (negsuc b) = ground arith
eq_ℤ_iff (pos a) (negsuc b) = ground arith
eq_ℤ_iff (negsuc a) (pos b) = ground arith

pub assoc_+ℤ : (a b c : ℤ) → (a +ℤ b) +ℤ c ≡ a +ℤ (b +ℤ c)
assoc_+ℤ (pos a) (pos b) (pos c) = ground arith
assoc_+ℤ (pos a) (pos b) (negsuc c) = ground arith
assoc_+ℤ (pos a) (negsuc b) (pos c) = ground arith
assoc_+ℤ (pos a) (negsuc b) (negsuc c) = ground arith
assoc_+ℤ (negsuc a) (pos b) (pos c) = ground arith
assoc_+ℤ (negsuc a) (pos b) (negsuc c) = ground arith
assoc_+ℤ (negsuc a) (negsuc b) (pos c) = ground arith
assoc_+ℤ (negsuc a) (negsuc b) (negsuc c) = ground arith

pub right_zero : (a : ℤ) → a +ℤ pos 0 ≡ a
right_zero (pos a) = ground arith
right_zero (negsuc a) = ground arith

pub left_zero : (a : ℤ) → pos 0 +ℤ a ≡ a
left_zero (pos a) = ground arith
left_zero (negsuc a) = ground arith
