-- ===== src/Tests/Capacity.antt =====
-- The theorem on the capacity that `scaleDownFaSTFunc` leaves (internal/controller/fastfunc_reconcile.go) in
-- hundredths, which are exact on whole counts of replicas.
use fa_st_gshare_autoscaler.Common.Fixed.{div_down, fixed}
use fa_st_gshare_autoscaler.Scale.Left.{loss}
use fa_st_gshare_autoscaler.Scale.Capacity.{IsExact}
use fa_st_gshare_autoscaler.Scale.{scale_down_plan}
use fa_st_gshare_autoscaler.Gpu.{Config}
use fa_st_gshare_autoscaler.Common.{
  int_eq, string_eq, List, [], ap, arith, neg_part, negsuc, pos, pos_part, quot, refl, sub64, suc,
  sym, zero, ℕ, ℤ, ◌*ℤ◌, ◌*◌, ◌+ℤ◌, ◌+◌, ◌-ℤ◌, ◌/◌, ◌<ℤ◌, ◌∙◌, ◌∷◌, ◌≡◌, ◌≤ℤ◌, ◌≤◌,
}
use native.Mathlib.Nat.{div-mul-le_self, mul-le-mul_right}
use fa_st_gshare_autoscaler.Tests.Control.{large, small}

pos_product : (a b : ℕ) → pos a *ℤ pos b ≡ pos (a * b)
unfolding ◌*ℤ◌
pos_product a b = ground arith

hundred_product : (m : ℕ) → pos m *ℤ pos 100 ≡ pos (m * 100)
hundred_product m = pos_product m 100

div_hundred : (x : ℕ) → x * 100 / 100 ≡ x
div_hundred x = omega arith

times_lem : (m b : ℕ) → fixed.fmul (fixed.of_int (pos m)) (pos b) ≡ pos (m * b)
times_lem m b =
    ap (λ x. div_down (x *ℤ pos b) 100) (hundred_product m)
    ∙ ap (λ x. div_down x 100) (pos_product (m * 100) b)
    ∙ ap pos (ap (λ x. x / 100) (swap_lem m b) ∙ div_hundred (m * b))
  where
    swap_lem : (m b : ℕ) → m * 100 * b ≡ m * b * 100
    swap_lem m b = omega arith

positive_rate : (q : ℤ) → pos 0 <ℤ q → (b : ℕ) × (q ≡ pos (suc b))
positive_rate (pos zero) h = absurd (omega arith)
positive_rate (pos (suc b)) h = (b, refl)
positive_rate (negsuc b) h = absurd (omega arith)

neg_product : (a : ℕ) → negsuc a *ℤ pos 100 ≡ negsuc (a * 100 + 99)
unfolding ◌*ℤ◌
neg_product a = ground arith

floor_lem : (a b m : ℕ) → a * 100 / suc b / 100 ≡ m → m * suc b ≤ a
floor_lem a b m e =
    let p = div-mul-le_self (a * 100) (suc b) in
    let q : m * 100 ≤ a * 100 / suc b = omega arith in
    let r = mul-le-mul_right (suc b) q in omega arith

quot_pos : (d : ℕ) → quot (pos d *ℤ pos 100) (pos 100) ≡ pos d
unfolding quot
quot_pos d = rw (hundred_product d) (ap pos (div_hundred d))

quot_neg : (d : ℕ) → quot (negsuc d *ℤ pos 100) (pos 100) ≡ negsuc d
unfolding quot
quot_neg d = rw (neg_product d) (ground arith)

floored :
    (x : ℤ) (b m : ℕ)
    → fixed.to_int (fixed.floor (fixed.fdiv x (pos (suc b)))) ≡ pos m
    → pos (m * suc b) ≤ℤ x
floored (pos a) b m h =
    let d = a * 100 / suc b / 100 in
    let e : fixed.to_int (fixed.floor (fixed.fdiv (pos a) (pos (suc b)))) ≡ pos d =
      ap (λ x. quot (div_down (div_down x (suc b)) 100 *ℤ pos 100) (pos 100)) (hundred_product a)
      ∙ quot_pos d in
    let same = sym e ∙ h in let le = floor_lem a b m (ap pos_part same) in omega arith
floored (negsuc a) b m h =
    let d = (a * 100 + 99) / suc b / 100 in
    let e : fixed.to_int (fixed.floor (fixed.fdiv (negsuc a) (pos (suc b)))) ≡ negsuc d =
      ap (λ x. quot (div_down (div_down x (suc b)) 100 *ℤ pos 100) (pos 100)) (neg_product a)
      ∙ quot_neg d in
    let same = sym e ∙ h in let neg = ap neg_part same in absurd (omega arith)

sum_lem : (m k b : ℕ) → pos ((m + k) * b) ≡ pos (m * b) +ℤ pos (k * b)
unfolding ◌+ℤ◌
sum_lem m k b = ground arith

fixed-IsExact : IsExact ℤ
fixed-IsExact = record {
  value = λ x. x;
  value_zero = refl;
  value_add = λ x y. refl;
  value_sub = λ x y. refl;
  le = λ x y h. ground arith;
  lt = λ x y h. ground arith;
  mul_nonneg =
      λ m q h. let (b, e) = positive_rate q h in rw e (rw (times_lem m (suc b)) (omega arith));
  mul_add = λ m k q h.
      let (b, e) = positive_rate q h in
      rw e (
        rw (times_lem (m + k) (suc b))
          (rw (times_lem m (suc b)) (rw (times_lem k (suc b)) (sum_lem m k (suc b)))));
  floor_le = λ m x q h r.
      let (b, e) = positive_rate q h in rw e (rw (times_lem m (suc b)) (floored x b m (rw e at r)));
}

-- Two configurations in replicas of ten requests per second.
abbrev pair : List (Config ℤ ℕ)
pair = small ∷ large ∷ []

-- The first is removed and the second reduced to two replicas: 30 of 50 requests per second are taken.
three_taken : loss fixed-IsExact (scale_down_plan (λ cs. cs) pair (pos 1500)) ≡ pos 3000
unfolding scale_down_plan fixed-IsExact quot sub64 ◌+ℤ◌ ◌-ℤ◌ ◌*ℤ◌
three_taken = refl
