-- ===== src/Common/Int.antt =====
-- Signed integers over the native numbers, and Go's 64-bit `int` and `int64`: every operation is the
-- exact one followed by the wrap-around to the range of a two's complement word.
use Prim.Native.Nat.{ℕ, suc, ◌+◌, ◌-◌, ◌*◌, ◌/◌, ◌%◌, ◌^◌, ◌≤◌, ◌<◌}
use mathlib.Core.Path.{◌≡◌, refl}
use mathlib.Core.Logic.{◌↔◌, ◌⊎◌, inl, inr}
use mathlib.Core.Bool.{Bool, true}
use native.Mathlib.Omega.{arith}
use fa_st_gshare_autoscaler.Common.Tests.{ltb, leb, nat_beq, if◌then◌else◌}

-- `negsuc n` is -(n + 1).
pub data ℤ : Type 0 where
  pos : ℕ → ℤ
  negsuc : ℕ → ℤ

abbrev pub pos_part : ℤ → ℕ
pos_part (pos n) = n
pos_part (negsuc n) = 0

abbrev pub neg_part : ℤ → ℕ
neg_part (pos n) = 0
neg_part (negsuc n) = suc n

-- a - b, as an integer.
abbrev pub sub_ℕ : ℕ → ℕ → ℤ
sub_ℕ a b = if leb b a then pos (a - b) else negsuc (b - a - 1)

infixl 65 ◌+ℤ◌ ◌-ℤ◌
infixl 70 ◌*ℤ◌
infix 50 ◌≤ℤ◌ ◌<ℤ◌
unfoldable pub ◌+ℤ◌ : ℤ → ℤ → ℤ
a +ℤ b = sub_ℕ (pos_part a + pos_part b) (neg_part a + neg_part b)

unfoldable pub ◌-ℤ◌ : ℤ → ℤ → ℤ
a -ℤ b = sub_ℕ (pos_part a + neg_part b) (neg_part a + pos_part b)

unfoldable pub ◌*ℤ◌ : ℤ → ℤ → ℤ
a *ℤ b =
    sub_ℕ (pos_part a * pos_part b + neg_part a * neg_part b)
      (pos_part a * neg_part b + neg_part a * pos_part b)

-- Go's `/` drops the fraction, towards zero. The callers exclude a zero divisor.
unfoldable pub quot : ℤ → ℤ → ℤ
quot (pos a) (pos b) = pos (a / b)
quot (pos a) (negsuc b) = sub_ℕ 0 (a / suc b)
quot (negsuc a) (pos b) = sub_ℕ 0 (suc a / b)
quot (negsuc a) (negsuc b) = pos (suc a / suc b)

abbrev pub ◌≤ℤ◌ : ℤ → ℤ → Type 0
a ≤ℤ b = pos_part a + neg_part b ≤ pos_part b + neg_part a

abbrev pub ◌<ℤ◌ : ℤ → ℤ → Type 0
a <ℤ b = pos_part a + neg_part b < pos_part b + neg_part a

abbrev pub ltb_ℤ : ℤ → ℤ → Bool
ltb_ℤ a b = ltb (pos_part a + neg_part b) (pos_part b + neg_part a)

abbrev pub leb_ℤ : ℤ → ℤ → Bool
leb_ℤ a b = leb (pos_part a + neg_part b) (pos_part b + neg_part a)

abbrev pub eqb_ℤ : ℤ → ℤ → Bool
eqb_ℤ a b = nat_beq (pos_part a + neg_part b) (pos_part b + neg_part a)

pub eqb_ℤ_iff : (a b : ℤ) → (eqb_ℤ a b ≡ true) ↔ (a ≡ b)
eqb_ℤ_iff a b = ground arith

pub +ℤ_parts :
    (a b : ℤ)
    → pos_part (a +ℤ b) + neg_part a + neg_part b ≡ neg_part (a +ℤ b) + pos_part a + pos_part b
unfolding ◌+ℤ◌
+ℤ_parts a b = ground arith

pub -ℤ_parts :
    (a b : ℤ)
    → pos_part (a -ℤ b) + neg_part a + pos_part b ≡ neg_part (a -ℤ b) + pos_part a + neg_part b
unfolding ◌-ℤ◌
-ℤ_parts a b = ground arith

pub eq_of_parts : (a b : ℤ) → pos_part a + neg_part b ≡ pos_part b + neg_part a → a ≡ b
eq_of_parts a b h = ground arith

-- The value of a 64-bit pattern, and the wrap-around.
unfoldable pub of_bits : ℕ → ℤ
of_bits u = if ltb u (2 ^ 63) then pos u else negsuc (2 ^ 64 - 1 - u)

unfoldable pub wrap64 : ℤ → ℤ
unfolding of_bits
wrap64 (pos n) = of_bits (n % 2 ^ 64)
wrap64 (negsuc n) = of_bits (2 ^ 64 - 1 - n % 2 ^ 64)

pub record InRange (a : ℤ) : Type 0 where
  pub below : pos_part a < 2 ^ 63
  pub above : neg_part a ≤ 2 ^ 63

pub wrap64-exact : (a : ℤ) → InRange a → wrap64 a ≡ a
unfolding wrap64
wrap64-exact (pos n) r = ground arith
wrap64-exact (negsuc n) r = ground arith

-- Every result of the machine is in range.
pub wrap64-InRange : (a : ℤ) → InRange (wrap64 a)
unfolding wrap64
wrap64-InRange (pos n) = ground arith
wrap64-InRange (negsuc n) = ground arith

unfoldable pub add64 : ℤ → ℤ → ℤ
unfolding wrap64 ◌+ℤ◌
add64 a b = wrap64 (a +ℤ b)

unfoldable pub sub64 : ℤ → ℤ → ℤ
unfolding wrap64 ◌-ℤ◌
sub64 a b = wrap64 (a -ℤ b)

unfoldable pub mul64 : ℤ → ℤ → ℤ
unfolding wrap64 ◌*ℤ◌
mul64 a b = wrap64 (a *ℤ b)

unfoldable pub quot64 : ℤ → ℤ → ℤ
unfolding wrap64 quot
quot64 a b = wrap64 (quot a b)

-- Away from an overflow the machine's sum and difference are the exact ones.
pub add64_parts :
    (a b : ℤ)
    → pos_part a + pos_part b < 2 ^ 63 + (neg_part a + neg_part b)
    → neg_part a + neg_part b ≤ 2 ^ 63 + (pos_part a + pos_part b)
    → pos_part (add64 a b) + neg_part a + neg_part b
      ≡ neg_part (add64 a b) + pos_part a + pos_part b
unfolding add64
add64_parts a b h k = ground arith

pub sub64_parts :
    (a b : ℤ)
    → pos_part a + neg_part b < 2 ^ 63 + (neg_part a + pos_part b)
    → neg_part a + pos_part b ≤ 2 ^ 63 + (pos_part a + neg_part b)
    → pos_part (sub64 a b) + neg_part a + pos_part b
      ≡ neg_part (sub64 a b) + pos_part a + neg_part b
unfolding sub64
sub64_parts a b h k = ground arith

-- An integer has one sign.
pub one_sign : (a : ℤ) → (pos_part a ≡ 0) ⊎ (neg_part a ≡ 0)
one_sign (pos n) = inr refl
one_sign (negsuc n) = inl refl

pub mul64-pos :
    (a b : ℤ)
    → neg_part a ≡ 0
    → neg_part b ≡ 0
    → pos_part a * pos_part b < 2 ^ 63
    → mul64 a b ≡ pos (pos_part a * pos_part b)
unfolding mul64
mul64-pos (pos m) (pos n) p q h = ground arith
mul64-pos (pos m) (negsuc n) p q h = absurd (omega arith)
mul64-pos (negsuc m) b p q h = absurd (omega arith)

pub mul64-InRange : (a b : ℤ) → InRange (mul64 a b)
unfolding mul64
mul64-InRange a b = wrap64-InRange (a *ℤ b)

-- `int32(a)`, the low 32 bits in two's complement.
unfoldable pub int32_of_bits : ℕ → ℤ
int32_of_bits u = if ltb u (2 ^ 31) then pos u else negsuc (2 ^ 32 - 1 - u)

unfoldable pub int32 : ℤ → ℤ
unfolding int32_of_bits
int32 (pos n) = int32_of_bits (n % 2 ^ 32)
int32 (negsuc n) = int32_of_bits (2 ^ 32 - 1 - n % 2 ^ 32)

pub int32-exact : (n : ℕ) → n < 2 ^ 31 → int32 (pos n) ≡ pos n
unfolding int32
int32-exact n h = ground arith
