-- ===== src/Scale/Left.antt =====
-- The capacity that is left after the loop of `scaleDownFaSTFunc`
-- (internal/controller/fastfunc_reconcile.go), in exact arithmetic.
use fa_st_gshare_autoscaler.Scale.Capacity.{IsExact, all_taken, total}
use fa_st_gshare_autoscaler.Scale.{ReduceInfo}
use fa_st_gshare_autoscaler.Gpu.{Config}
use fa_st_gshare_autoscaler.Common.{
  int_eq, string_eq, Float, List, [], pos, true, ℕ, ℤ, ◌+ℤ◌, ◌∷◌, ◌≡◌, ◌≤ℤ◌,
}

module _ {F T : Type 0} ⦃f : Float F⦄ (exact : IsExact F) where
  open exact use {value}

  -- What a plan takes: of the configurations that are reduced, and those that are removed.
  abbrev pub loss : List (ReduceInfo F T) × List (Config F T) × F → ℤ
  loss (updates, removals, end) = all_taken exact updates +ℤ total exact removals

  -- The loop's sum is no more than what is kept and what is to come; at the end it is not read.
  abbrev Bounded : ℕ → F → List (Config F T) → Type 0
  Bounded k current [] = true ≡ true
  Bounded k current (c ∷ cs) = value current ≤ℤ pos k +ℤ total exact (c ∷ cs)
