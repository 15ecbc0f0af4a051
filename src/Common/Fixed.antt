-- ===== src/Common/Fixed.antt =====
-- Hundredths in place of float64: a concrete arithmetic in which the program runs, and which shows
-- that the laws asked of float64 can be met. Quotients round down.
use Prim.Native.Nat.{ℕ, ◌*◌, ◌/◌, ◌^◌, suc}
use native.Mathlib.Omega.{arith}
use fa_st_gshare_autoscaler.Common.Tests.{if◌then◌else◌}
use fa_st_gshare_autoscaler.Common.Int.{
  ℤ, pos, negsuc, ◌+ℤ◌, ◌-ℤ◌, ◌*ℤ◌, quot, leb_ℤ, ltb_ℤ, eqb_ℤ, -ℤ_parts,
}
use fa_st_gshare_autoscaler.Common.Floats.{Float, IsOrdered, IsComparable}

-- Rounds down to a multiple of `k`, and divides by it.
abbrev pub div_down : ℤ → ℕ → ℤ
div_down (pos n) k = pos (n / k)
div_down (negsuc n) k = negsuc (n / k)

abbrev pub div_fixed : ℤ → ℤ → ℤ
div_fixed a (pos b) = div_down (a *ℤ pos 100) b
div_fixed a (negsuc b) = div_down (pos 0 -ℤ (a *ℤ pos 100)) (suc b)

abbrev pub floor_fixed : ℤ → ℤ
floor_fixed a = div_down a 100 *ℤ pos 100

instance abbrev pub fixed : Float ℤ
fixed = record {
  decimal = λ n k. pos (n * 100 / 10 ^ k);
  of_int = λ a. a *ℤ pos 100;
  to_int = λ a. quot a (pos 100);
  fadd = ◌+ℤ◌;
  fsub = ◌-ℤ◌;
  fmul = λ a b. div_down (a *ℤ b) 100;
  fdiv = div_fixed;
  flt = ltb_ℤ;
  fle = leb_ℤ;
  feq = eqb_ℤ;
  floor = floor_fixed;
  ceil = λ a. pos 0 -ℤ floor_fixed (pos 0 -ℤ a);
  round = λ a. floor_fixed (a +ℤ pos 50);
  fabs = λ a. if ltb_ℤ a (pos 0) then pos 0 -ℤ a else a;
  fmin = λ a b. if leb_ℤ a b then a else b;
  fmax = λ a b. if leb_ℤ a b then b else a;
}

pub fixed-IsOrdered : IsOrdered ℤ
fixed-IsOrdered = record {
  le_of_not_lt = λ x y p q h. ground arith;
  lt_of_not_le = λ x y p q h. ground arith;
  le_trans = λ x y z p q. ground arith;
  refl_of_le = λ x y p. ground arith;
  not_le_of_lt = λ x y p. ground arith;
  le_of_lt = λ x y p. ground arith;
  decimal_refl = λ n k. ground arith;
  sub_le = λ x y w p q r. ground (arith, -ℤ_parts x w);
}

pub fixed-IsComparable : IsComparable ℤ
fixed-IsComparable = record {
  eq_sym = λ x y p. ground arith;
  eq_trans = λ x y z p q. ground arith;
  lt_trans = λ x y z p q. ground arith;
  lt_irrefl = λ x. ground arith;
}
