-- ===== src/Rounds.antt =====
-- internal/controller/fastfunc_reconcile.go: the rates that Prometheus reports, and one tick of
-- `persistentReconcile`. Prometheus, the list of functions, the clock and `strconv.Atoi` are parameters.
use fa_st_gshare_autoscaler.Update.{Backend, update_function}
use fa_st_gshare_autoscaler.Functions.{State, annotation, with_world}
use fa_st_gshare_autoscaler.Api.{FastFuncObject}
use fa_st_gshare_autoscaler.Names.{rate_query}
use fa_st_gshare_autoscaler.Gpu.{AllocationTypes}
use mathlib.Core.Option
use fa_st_gshare_autoscaler.Common.{
  string_eq, int_eq, Float, List, Option, String, [], if◌then◌else◌, lookup, none, nought, pos,
  some, sub64, ℤ, ◌==◌, ◌∷◌,
}
pub mod Isolation

-- A query at a time: the values of the vector, or `none` for an error.
abbrev pub Prometheus : Type 0 → Type 0 → Type 0
Prometheus W F = W → String → ℤ → W × Option (List F)

module _ {F : Type 0} ⦃f : Float F⦄ where
  unfoldable pub sum_values : List F → F → F
  sum_values [] acc = acc
  sum_values (v ∷ vs) acc = sum_values vs (f.fadd acc v)

module _ {W F : Type 0} ⦃f : Float F⦄ (query : Prometheus W F) where
  -- `doPromQuery`: the sum of the values, which is 0 if there is none.
  unfoldable pub do_prom_query : String → ℤ → W → W × Option F
  unfolding sum_values
  do_prom_query q ts w =
      let (w', r) = query w q ts in (w', Option.map (λ vs. sum_values vs nought) r)

  abbrev pub third_rate : F → F → W × Option F → W × Option (F × F × F)
  third_rate x y (w, none) = (w, none)
  third_rate x y (w, some z) = (w, some (x, y, z))

  -- The rate of 30 seconds, half a minute ago.
  abbrev pub second_rate : String → ℤ → F → W × Option F → W × Option (F × F × F)
  second_rate q30s now x (w, none) = (w, none)
  second_rate q30s now x (w, some y) =
      third_rate x y (do_prom_query q30s (sub64 now (pos 30_000_000_000)) w)

  abbrev pub first_rate : String → ℤ → W × Option F → W × Option (F × F × F)
  first_rate q30s now (w, none) = (w, none)
  first_rate q30s now (w, some x) = second_rate q30s now x (do_prom_query q30s now w)

  -- `getRPSMetrics`: the rates of the last 10 and 30 seconds and of the 30 seconds before; `none` is an
  -- error, on which the caller reads no rate. `now` is in nanoseconds.
  unfoldable pub get_rps_metrics : String → String → ℤ → W → W × Option (F × F × F)
  unfolding do_prom_query
  get_rps_metrics name namespace now w =
      first_rate (rate_query name namespace "30s") now
        (do_prom_query (rate_query name namespace "10s") now w)

module _ {S : Type 0} where
  -- The requests per second to maintain: the annotation `min-qps`, if there is one; `none` if it is no number.
  unfoldable pub rps_to_maintain : (String → Option ℤ) → FastFuncObject S → Option ℤ
  unfolding lookup
  rps_to_maintain atoi obj =
      let given = annotation "min-qps" obj.annotations in
      if given == "" then some obj.spec.min_qps else atoi given

-- What a tick calls besides `UpdateFunction`, and the time.
pub record Sources (W S F : Type 0) : Type 0 where
  pub query : Prometheus W F
  pub atoi : String → Option ℤ
  pub list : W → W × Option (List (FastFuncObject S))

module _ {W C S F T : Type 0} ⦃f : Float F⦄ ⦃a : AllocationTypes T⦄ (b : Backend W C S F T)
    (src : Sources W S F) where
  -- The rest of the body once the rates are there.
  abbrev pub updated : FastFuncObject S → ℤ → State W C F T → W × Option (F × F × F) → State W C F T
  updated obj rps st (w, none) = with_world w st
  updated obj rps st (w, some rates) =
      (update_function b obj rates (f.of_int rps) (annotation "gpu-preferred" obj.annotations)
        (with_world w st)).0

  -- The body of the loop over the functions: a failure passes on to the next one.
  unfoldable pub check_function : FastFuncObject S → ℤ → State W C F T → State W C F T
  unfolding rps_to_maintain get_rps_metrics update_function
  check_function obj now st = elim (rps_to_maintain src.atoi obj) [
    | none ↦ st
    | some rps ↦
        updated obj rps st (get_rps_metrics src.query obj.name obj.namespace now st.site.world)
  ]

  -- The loop; `clock obj` is the time at which that function is checked.
  unfoldable pub check_functions :
      (FastFuncObject S → ℤ) → List (FastFuncObject S) → State W C F T → State W C F T
  unfolding check_function
  check_functions clock [] st = st
  check_functions clock (obj ∷ objs) st =
      check_functions clock objs (check_function obj (clock obj) st)

  abbrev pub listed :
      (FastFuncObject S → ℤ) → State W C F T → W × Option (List (FastFuncObject S)) → State W C F T
  listed clock st (w, none) = with_world w st
  listed clock st (w, some objs) = check_functions clock objs (with_world w st)

  -- One tick of `persistentReconcile`.
  unfoldable pub tick : (FastFuncObject S → ℤ) → State W C F T → State W C F T
  unfolding check_functions
  tick clock st = listed clock st (src.list st.site.world)
