-- ===== src/Common/Floats.antt =====
-- Go's float64 as a parameter: the operations that the program calls, and separately the documented
-- laws of IEEE 754 that a theorem may ask for. A NaN is a value that is not `<=` itself.
use mathlib.Core.Path.{◌≡◌}
use mathlib.Core.Bool.{Bool, true, false}
use Prim.Native.Nat.{ℕ}
use fa_st_gshare_autoscaler.Common.Int.{ℤ}

pub record Float (F : Type 0) : Type 0 where
  -- A literal `decimal n k` is n / 10^k, such as 1.5 as `decimal 15 1`.
  pub decimal : ℕ → ℕ → F
  pub of_int : ℤ → F
  -- `int(x)`, which drops the fraction
  pub to_int : F → ℤ
  pub fadd : F → F → F
  pub fsub : F → F → F
  pub fmul : F → F → F
  pub fdiv : F → F → F
  pub flt : F → F → Bool
  pub fle : F → F → Bool
  pub feq : F → F → Bool
  -- math.Floor, math.Ceil, math.Round, math.Abs, math.Min, math.Max
  pub floor : F → F
  pub ceil : F → F
  pub round : F → F
  pub fabs : F → F
  pub fmin : F → F → F
  pub fmax : F → F → F

abbrev pub one : {F : Type 0} ⦃f : Float F⦄ → F
one ⦃f⦄ = f.decimal 1 0

abbrev pub nought : {F : Type 0} ⦃f : Float F⦄ → F
nought ⦃f⦄ = f.decimal 0 0

-- `x != y`, `x > y` and `x >= y` are written with the arguments of `feq`, `flt` and `fle` in the
-- order that the source has.
infix 4 ◌≼◌
abbrev pub ◌≼◌ : {F : Type 0} ⦃f : Float F⦄ → F → F → Type 0
◌≼◌ ⦃f⦄ x y = f.fle x y ≡ true

-- The laws of the order, of IEEE 754. They hold with NaN and the infinities among the values.
pub record IsOrdered (F : Type 0) ⦃f : Float F⦄ : Type 0 where
  pub le_of_not_lt : (x y : F) → x ≼ x → y ≼ y → f.flt y x ≡ false → x ≼ y
  pub lt_of_not_le : (x y : F) → x ≼ x → y ≼ y → f.fle x y ≡ false → f.flt y x ≡ true
  pub le_trans : (x y z : F) → x ≼ y → y ≼ z → x ≼ z
  pub refl_of_le : (x y : F) → x ≼ y → (x ≼ x) × (y ≼ y)
  pub not_le_of_lt : (x y : F) → f.flt x y ≡ true → f.fle y x ≡ false
  pub le_of_lt : (x y : F) → f.flt x y ≡ true → x ≼ y
  pub decimal_refl : (n k : ℕ) → f.decimal n k ≼ f.decimal n k
  -- To subtract a number in (0, 1] does not raise a value: rounding is monotone.
  pub sub_le : (x y w : F) → x ≼ y → f.flt nought w ≡ true → w ≼ one → f.fsub x w ≼ y

-- The laws of `==` and of the strict order, of IEEE 754. `==` fails only at a NaN to be reflexive.
pub record IsComparable (F : Type 0) ⦃f : Float F⦄ : Type 0 where
  pub eq_sym : (x y : F) → f.feq x y ≡ true → f.feq y x ≡ true
  pub eq_trans : (x y z : F) → f.feq x y ≡ true → f.feq y z ≡ true → f.feq x z ≡ true
  pub lt_trans : (x y z : F) → f.flt x y ≡ true → f.flt y z ≡ true → f.flt x z ≡ true
  pub lt_irrefl : (x : F) → f.flt x x ≡ false
