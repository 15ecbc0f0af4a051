-- ===== src/Finder/Quotas.antt =====
-- The rounds of the quota loop of `getConfig` in internal/controller/config_finder.go.
use fa_st_gshare_autoscaler.Finder.{climb, quotas}
use fa_st_gshare_autoscaler.Common.{Float, arith, false, one, refl, suc, zero, ℕ, ◌≡◌, ◌≤◌}

module _ {F : Type 0} ⦃f : Float F⦄ where
  -- If the quota is not `<= 1` after n steps of a tenth, then n rounds of the quota loop of
  -- getConfig try the same quotas as any larger number of rounds.
  quotas-enough :
      (n m : ℕ) (quota : F)
      → n ≤ m
      → f.fle (climb n quota) one ≡ false
      → quotas m quota ≡ quotas n quota
  unfolding quotas
  quotas-enough zero zero quota le h = refl
  quotas-enough zero (suc m) quota le h = rw h refl
  quotas-enough (suc n) zero quota le h = ground arith
  quotas-enough (suc n) (suc m) quota le h =
      rw (quotas-enough n m (f.fadd quota (f.decimal 1 1)) (omega arith) h) refl
