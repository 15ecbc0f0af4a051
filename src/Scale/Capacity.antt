-- ===== src/Scale/Capacity.antt =====
-- How much capacity `scaleDownFaSTFunc` of internal/controller/fastfunc_reconcile.go leaves, in exact
-- arithmetic: the rates are counted in a unit in which they are whole, and nothing is rounded.
use fa_st_gshare_autoscaler.Scale.{ReduceInfo, judge, max_removable, reduce_to, shrink}
use fa_st_gshare_autoscaler.Gpu.{Config}
use fa_st_gshare_autoscaler.Common.{
  int_eq, string_eq, +ℤ_parts, -ℤ_parts, All, Float, List, [], ap, arith, eq_of_parts, false,
  if◌then◌else◌, leb_ℤ, ltb_ℤ, neg_part, negsuc, nought, pos, pos_part, refl, sub64, subst, sym,
  true, ℕ, ℤ, ◌+ℤ◌, ◌+◌, ◌-ℤ◌, ◌-◌, ◌<ℤ◌, ◌<◌, ◌^◌, ◌∙◌, ◌∷◌, ◌≡◌, ◌≤ℤ◌, ◌≼◌,
}

-- What exact arithmetic gives: `value` counts a number in the unit. Products are of a replica count
-- and the rate of one replica; the quotient of two rates is rounded down to such a count.
pub record IsExact (F : Type 0) ⦃f : Float F⦄ : Type 0 where
  pub value : F → ℤ
  pub value_zero : value nought ≡ pos 0
  pub value_add : (x y : F) → value (f.fadd x y) ≡ value x +ℤ value y
  pub value_sub : (x y : F) → value (f.fsub x y) ≡ value x -ℤ value y
  pub le : (x y : F) → x ≼ y → value x ≤ℤ value y
  pub lt : (x y : F) → f.fle x y ≡ false → value y <ℤ value x
  pub mul_nonneg : (m : ℕ) (q : F) → pos 0 <ℤ value q → pos 0 ≤ℤ value (f.fmul (f.of_int (pos m)) q)
  pub mul_add :
      (m k : ℕ) (q : F)
      → pos 0 <ℤ value q
      → value (f.fmul (f.of_int (pos (m + k))) q)
        ≡ value (f.fmul (f.of_int (pos m)) q) +ℤ value (f.fmul (f.of_int (pos k)) q)
  pub floor_le :
      (m : ℕ) (x q : F)
      → pos 0 <ℤ value q
      → f.to_int (f.floor (f.fdiv x q)) ≡ pos m
      → value (f.fmul (f.of_int (pos m)) q) ≤ℤ value x

left_lem :
    (a : ℤ) (n m : ℕ)
    → a ≡ pos n
    → n < 2 ^ 63
    → m < n
    → (if ltb_ℤ (sub64 a (pos m)) (pos 1) then pos 1 else sub64 a (pos m)) ≡ pos (n - m)
unfolding sub64
left_lem a n m e small lt = rw e (ground arith)

positive_lem : (a : ℤ) → ltb_ℤ (pos 0) a ≡ true → (m : ℕ) × (a ≡ pos m)
positive_lem (pos m) h = (m, refl)
positive_lem (negsuc m) h = ground arith

-- Sums and differences of integers.
sub_sub : (a b : ℤ) → a -ℤ (a -ℤ b) ≡ b
sub_sub a b =
    let p = -ℤ_parts a b in
    let q = -ℤ_parts a (a -ℤ b) in eq_of_parts (a -ℤ (a -ℤ b)) b (omega arith)

add_part :
    (new a left away current : ℤ)
    → a ≡ left +ℤ away
    → away ≤ℤ current -ℤ new
    → new +ℤ (a -ℤ left) ≤ℤ current
add_part new a left away current e h =
    let p = +ℤ_parts left away in
    let q = -ℤ_parts current new in
    let r = -ℤ_parts a left in
    let s = +ℤ_parts new (a -ℤ left) in
    let t = ap pos_part e in let u = ap neg_part e in omega arith

sub_le_self : (a b : ℤ) → pos 0 ≤ℤ b → a -ℤ b ≤ℤ a
sub_le_self a b h = let p = -ℤ_parts a b in omega arith

fewer_lem : (a b : ℤ) (n m : ℕ) → a ≡ pos n → b ≡ pos m → leb_ℤ a b ≡ false → m < n
fewer_lem a b n m p q h = ground arith

module _ {F T : Type 0} ⦃f : Float F⦄ (exact : IsExact F) where
  open exact use {value}

  -- The rate of a configuration is that of its replicas.
  pub record IsCounted (c : Config F T) : Type 0 where
    pub replicas : ℕ
    pub allocated : c.allocated_replica ≡ pos replicas
    pub small : replicas < 2 ^ 63
    pub rate : pos 0 <ℤ value c.qps_per_replica
    pub product : value c.allocated_rps ≡ value (f.fmul (f.of_int (pos replicas)) c.qps_per_replica)

  -- What `sort.Slice` by `AllocatedRPS` leaves.
  abbrev pub AreAscending : List (Config F T) → Type 0
  AreAscending [] = true ≡ true
  AreAscending (c ∷ cs) = All (λ d. c.allocated_rps ≼ d.allocated_rps) cs × AreAscending cs

  abbrev pub total : List (Config F T) → ℤ
  total [] = pos 0
  total (c ∷ cs) = value c.allocated_rps +ℤ total cs

  -- What a reduction takes from its configuration.
  abbrev pub taken : ReduceInfo F T → ℤ
  taken info =
      value info.config.allocated_rps
      -ℤ value (f.fmul (f.of_int info.new_replica) info.config.qps_per_replica)

  abbrev pub all_taken : List (ReduceInfo F T) → ℤ
  all_taken [] = pos 0
  all_taken (info ∷ rest) = taken info +ℤ all_taken rest

  abbrev pub reduced : F → Config F T → ℕ → ReduceInfo F T
  reduced current c k = record {
    config = c;
    new_replica = pos k;
    reduced_delta =
        f.fsub current (f.fsub c.allocated_rps (f.fmul (f.of_int (pos k)) c.qps_per_replica));
  }

  pub record Reduced (new_rps current : F) (c : Config F T) (n : ℕ) : Type 0 where
    pub gone : ℕ
    pub kept : ℕ
    pub removable : max_removable new_rps current c ≡ pos gone
    pub count : n ≡ kept + gone
    pub result : judge new_rps current c ≡ shrink (reduced current c kept)

  reduce_to-reduced :
      (current : F) (c : Config F T) (n m : ℕ)
      → c.allocated_replica ≡ pos n
      → n < 2 ^ 63
      → m < n
      → reduce_to current c (pos m) ≡ reduced current c (n - m)
  unfolding reduce_to
  reduce_to-reduced current c n m e small lt =
      ap
        (λ r. record {
          config = c;
          new_replica = r;
          reduced_delta =
              f.fsub current (f.fsub c.allocated_rps (f.fmul (f.of_int r) c.qps_per_replica));
        })
        (left_lem c.allocated_replica n m e small lt)

  judge_removable :
      (new_rps current : F) (c : Config F T) (info : ReduceInfo F T)
      → judge new_rps current c ≡ shrink info
      → (ltb_ℤ (pos 0) (max_removable new_rps current c) ≡ true)
        × (leb_ℤ c.allocated_replica (max_removable new_rps current c) ≡ false)
        × (reduce_to current c (max_removable new_rps current c) ≡ info)
  unfolding judge
  judge_removable new_rps current c info e = (ground arith, ground arith, ground arith)

  pub judge-Reduced :
      (new_rps current : F) (c : Config F T) (info : ReduceInfo F T) (counted : IsCounted c)
      → judge new_rps current c ≡ shrink info
      → Reduced new_rps current c counted.replicas
  judge-Reduced new_rps current c info counted e =
      let (some_, fewer, result) = judge_removable new_rps current c info e in
      let (m, removable) = positive_lem (max_removable new_rps current c) some_ in
      let lt =
        fewer_lem c.allocated_replica (max_removable new_rps current c) counted.replicas m
          counted.allocated removable fewer in
      record {
        gone = m;
        kept = counted.replicas - m;
        removable = removable;
        count = omega arith;
        result =
            e
            ∙ ap shrink (
                sym result
                ∙ ap (reduce_to current c) removable
                ∙ reduce_to-reduced current c counted.replicas m counted.allocated counted.small
                    lt);
      }

  -- A configuration that is reduced to `k` replicas.
  pub record Cut (new_rps current : F) (c : Config F T) (k : ℕ) : Type 0 where
    pub next :
        value (f.fsub current (reduced current c k).reduced_delta) ≡ taken (reduced current c k)
    pub above : value new_rps +ℤ taken (reduced current c k) ≤ℤ value current
    pub low : pos 0 ≤ℤ value (f.fmul (f.of_int (pos k)) c.qps_per_replica)
    pub within : taken (reduced current c k) ≤ℤ value c.allocated_rps

  pub Reduced-Cut :
      (new_rps current : F) (c : Config F T) (counted : IsCounted c)
      (r : Reduced new_rps current c counted.replicas)
      → Cut new_rps current c r.kept
  unfolding max_removable
  Reduced-Cut new_rps current c counted r =
      let q = c.qps_per_replica in
      let times : (n : ℕ) → F = λ n. f.fmul (f.of_int (pos n)) q in
      let cut = f.fsub c.allocated_rps (times r.kept) in
      record {
        next =
            exact.value_sub current (f.fsub current cut)
            ∙ ap (λ x. value current -ℤ x) (exact.value_sub current cut)
            ∙ sub_sub (value current) (value cut)
            ∙ exact.value_sub c.allocated_rps (times r.kept);
        above =
            add_part (value new_rps) (value c.allocated_rps) (value (times r.kept))
              (value (times r.gone)) (value current)
              (counted.product
                ∙ ap (λ n. value (times n)) r.count
                ∙ exact.mul_add r.kept r.gone q counted.rate)
              (subst (λ x. value (times r.gone) ≤ℤ x) (exact.value_sub current new_rps)
                (exact.floor_le r.gone (f.fsub current new_rps) q counted.rate r.removable));
        low = exact.mul_nonneg r.kept q counted.rate;
        within =
            sub_le_self (value c.allocated_rps) (value (times r.kept))
              (exact.mul_nonneg r.kept q counted.rate);
      }
