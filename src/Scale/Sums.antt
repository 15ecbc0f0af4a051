-- ===== src/Scale/Sums.antt =====
-- Sums of integers in a step of the loop of `scaleDownFaSTFunc`
-- (internal/controller/fastfunc_reconcile.go).
use fa_st_gshare_autoscaler.Common.{
  int_eq, string_eq, +ℤ_parts, -ℤ_parts, arith, eq_of_parts, one_sign, pos, pos_part, ℕ, ℤ, ◌+ℤ◌,
  ◌+◌, ◌-ℤ◌, ◌≡◌, ◌≤ℤ◌,
}

-- The sums of a step; `k` is the capacity that the loop has passed over and kept.
pub drop_step :
    (new x y a t : ℤ) (k : ℕ)
    → new +ℤ (x +ℤ y) ≤ℤ pos k +ℤ t
    → new +ℤ (x +ℤ (a +ℤ y)) ≤ℤ pos k +ℤ (a +ℤ t)
drop_step new x y a t k h =
    let p1 = +ℤ_parts x y in
    let p2 = +ℤ_parts new (x +ℤ y) in
    let p3 = +ℤ_parts (pos k) t in
    let p4 = +ℤ_parts a y in
    let p5 = +ℤ_parts x (a +ℤ y) in
    let p6 = +ℤ_parts new (x +ℤ (a +ℤ y)) in
    let p7 = +ℤ_parts a t in let p8 = +ℤ_parts (pos k) (a +ℤ t) in omega arith

pub drop_up : (current a t : ℤ) (k : ℕ) → current ≤ℤ pos k +ℤ (a +ℤ t) → current -ℤ a ≤ℤ pos k +ℤ t
drop_up current a t k h =
    let p1 = +ℤ_parts a t in
    let p2 = +ℤ_parts (pos k) (a +ℤ t) in
    let p3 = +ℤ_parts (pos k) t in let p4 = -ℤ_parts current a in omega arith

-- `l` of `a` is kept, and counts from then on to what the loop has passed over.
pub keep_sum :
    (a l t : ℤ) (k : ℕ) → pos 0 ≤ℤ l → pos k +ℤ (a +ℤ t) ≡ pos (k + pos_part l) +ℤ t +ℤ (a -ℤ l)
keep_sum a l t k n =
    let p1 = +ℤ_parts a t in
    let p2 = +ℤ_parts (pos k) (a +ℤ t) in
    let p3 = +ℤ_parts (pos (k + pos_part l)) t in
    let p4 = -ℤ_parts a l in
    let p5 = +ℤ_parts (pos (k + pos_part l) +ℤ t) (a -ℤ l) in
    let p6 = one_sign l in
    eq_of_parts (pos k +ℤ (a +ℤ t)) (pos (k + pos_part l) +ℤ t +ℤ (a -ℤ l)) (ground arith)

pub cancel : (x y d : ℤ) → x +ℤ d ≤ℤ y +ℤ d → x ≤ℤ y
cancel x y d h = let p = +ℤ_parts x d in let q = +ℤ_parts y d in omega arith

pub add_le : (x y d : ℤ) → x ≤ℤ y → x +ℤ d ≤ℤ y +ℤ d
add_le x y d h = let p = +ℤ_parts x d in let q = +ℤ_parts y d in omega arith

pub le_trans_ℤ : (x y z : ℤ) → x ≤ℤ y → y ≤ℤ z → x ≤ℤ z
le_trans_ℤ x y z h k = omega arith

pub swap_sum : (new x y d : ℤ) → new +ℤ (d +ℤ x +ℤ y) ≡ new +ℤ (x +ℤ y) +ℤ d
swap_sum new x y d =
    let p1 = +ℤ_parts x y in
    let p2 = +ℤ_parts new (x +ℤ y) in
    let p3 = +ℤ_parts (new +ℤ (x +ℤ y)) d in
    let p4 = +ℤ_parts d x in
    let p5 = +ℤ_parts (d +ℤ x) y in
    let p6 = +ℤ_parts new (d +ℤ x +ℤ y) in
    eq_of_parts (new +ℤ (d +ℤ x +ℤ y)) (new +ℤ (x +ℤ y) +ℤ d) (omega arith)

pub whole_sum : (a t : ℤ) (k : ℕ) → pos 0 ≤ℤ a → pos k +ℤ (a +ℤ t) ≡ pos (k + pos_part a) +ℤ t
whole_sum a t k n =
    let p1 = +ℤ_parts a t in
    let p2 = +ℤ_parts (pos k) (a +ℤ t) in
    let p3 = +ℤ_parts (pos (k + pos_part a)) t in
    let p6 = one_sign a in
    eq_of_parts (pos k +ℤ (a +ℤ t)) (pos (k + pos_part a) +ℤ t) (ground arith)

pub sum_nonneg : (a t : ℤ) → pos 0 ≤ℤ a → pos 0 ≤ℤ t → pos 0 ≤ℤ a +ℤ t
sum_nonneg a t p q = let r = +ℤ_parts a t in omega arith

pub le_more : (x a t : ℤ) (k : ℕ) → x ≤ℤ a → pos 0 ≤ℤ t → x ≤ℤ pos k +ℤ (a +ℤ t)
le_more x a t k h n = let p1 = +ℤ_parts a t in let p2 = +ℤ_parts (pos k) (a +ℤ t) in omega arith

pub add_zero : (x : ℤ) → x +ℤ (pos 0 +ℤ pos 0) ≡ x
unfolding ◌+ℤ◌
add_zero x = let p = +ℤ_parts x (pos 0) in eq_of_parts (x +ℤ pos 0) x (ground arith)

pub plus_zero : (x : ℤ) → x +ℤ pos 0 ≡ x
plus_zero x = let p = +ℤ_parts x (pos 0) in eq_of_parts (x +ℤ pos 0) x (ground arith)

pub plus_nought : (x : ℤ) → pos 0 +ℤ x ≡ x
plus_nought x = let p = +ℤ_parts (pos 0) x in eq_of_parts (pos 0 +ℤ x) x (ground arith)

pub plus_assoc : (x y z : ℤ) → x +ℤ y +ℤ z ≡ x +ℤ (y +ℤ z)
plus_assoc x y z =
    let p = +ℤ_parts x y in
    let q = +ℤ_parts (x +ℤ y) z in
    let r = +ℤ_parts y z in
    let s = +ℤ_parts x (y +ℤ z) in eq_of_parts (x +ℤ y +ℤ z) (x +ℤ (y +ℤ z)) (omega arith)

pub le_refl_ℤ : (x : ℤ) → x ≤ℤ x
le_refl_ℤ x = omega arith
