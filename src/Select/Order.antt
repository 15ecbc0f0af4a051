-- ===== src/Select/Order.antt =====
-- The comparison of internal/controller/gpu_sort.go.
use fa_st_gshare_autoscaler.Gpu.{AllocationTypes, GpuInfo}
use fa_st_gshare_autoscaler.Profiling.{QpsStore}
use fa_st_gshare_autoscaler.Finder.{ResourceRequest}
use fa_st_gshare_autoscaler.Select.{balance, efficiency, free_memory, free_sm, gpu_less}
use fa_st_gshare_autoscaler.Common.{string_eq, Float, IsComparable, arith, false, true, ◌≡◌}

module _ {F : Type 0} ⦃f : Float F⦄ (c : IsComparable F) where
  open c use {eq_sym, lt_trans, lt_irrefl}

  lt_asym : (x y : F) → f.flt x y ≡ true → f.flt y x ≡ false
  lt_asym x y h = ground (arith, lt_trans x y x, lt_irrefl x)

  eq_flip : (x y : F) → f.feq x y ≡ f.feq y x
  eq_flip x y = ground (arith, eq_sym x y, eq_sym y x)

module _ {F T : Type 0} ⦃f : Float F⦄ ⦃a : AllocationTypes T⦄ (c : IsComparable F) where
  -- The comparison by which the GPUs are sorted is asymmetric, as `sort.Slice` asks: no two GPUs
  -- come each before the other, and none before itself. The laws of IEEE 754 for `==` and `<`
  -- are assumed.
  pub gpu_less-asym :
      (store : QpsStore F) (req : ResourceRequest F T) (x y : GpuInfo F T)
      → gpu_less store req x y ≡ true
      → gpu_less store req y x ≡ false
  unfolding gpu_less
  gpu_less-asym store req x y h =
      let e : GpuInfo F T → F = efficiency store req.model_name in
      ground (
        arith,
        eq_flip c (e x) (e y),
        eq_flip c (balance x) (balance y),
        eq_flip c (free_sm x) (free_sm y),
        lt_asym c (e y) (e x),
        lt_asym c (balance x) (balance y),
        lt_asym c (free_sm y) (free_sm x),
        lt_asym c (free_memory x) (free_memory y),
      )
