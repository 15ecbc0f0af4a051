-- ===== src/Select/Pick/Kept.antt =====
-- The configurations that the loops of internal/controller/config_finder.go collect.
use fa_st_gshare_autoscaler.Select.Pick.{keep}
use fa_st_gshare_autoscaler.Common.{All, List, MayBe, Option, none, some}

module _ {A : Type 0} (P : A → Type 0) where
  pub keep-MayBe : (o : Option A) (xs : List A) → MayBe P o → All P xs → All P (keep o xs)
  keep-MayBe none xs h q = q
  keep-MayBe (some x) xs h q = (h, q)

  pub MayBe-keep : (o : Option A) (xs : List A) → All P (keep o xs) → MayBe P o × All P xs
  MayBe-keep none xs h = (tt, h)
  MayBe-keep (some x) xs h = h
