-- ===== src/Functions.antt =====
-- internal/controller/fastfunc_reconcile.go and fastfunc_controller.go: the functions that the controller
-- knows, with their configurations, and the state of the whole controller.
use fa_st_gshare_autoscaler.Pods.Spec.{FastPod}
use fa_st_gshare_autoscaler.Prepare.{Site}
use fa_st_gshare_autoscaler.Select.{Heap}
use fa_st_gshare_autoscaler.Gpu.{Config, GpuInfo}
use fa_st_gshare_autoscaler.Common.{
  string_eq, Bool, Float, GoMap, List, Option, String, [], if◌then◌else◌, insert, lookup, map, none,
  nought, pos, some, ℕ, ℤ, ◌++◌, ◌==◌, ◌∷◌,
}

-- `FastFunc`
pub record FastFunc (F T : Type 0) : Type 0 where
  pub name : String
  pub configs : GoMap String (Config F T)
  pub current_rps_capacity : F
  pub scale_down_count : ℤ

-- The work item that `scheduleForDeletion` adds to the queue after ten seconds: the GPU's UUID and node.
pub record Scheduled : Type 0 where
  pub gpu_uuid : String
  pub node_name : String

-- The nodes with their GPUs, `fastFuncMap`, the deletions scheduled in order and the UUIDs drawn so far.
pub record State (W C F T : Type 0) : Type 0 where
  pub site : Site W C F T
  pub functions : GoMap String (FastFunc F T)
  pub scheduled : List Scheduled
  pub drawn : ℕ

-- What an annotation reads as: the empty string, if it is not there.
abbrev pub annotation : String → GoMap String String → String
annotation k m = elim (lookup k m) [ none ↦ "" | some v ↦ v ]

module _ {F T : Type 0} where
  -- `CurrentConfigs`, in the order of the map
  unfoldable pub current_configs : FastFunc F T → List (Config F T)
  current_configs fn = map (λ e. e.1) fn.configs

  -- `scheduleForDeletion`
  abbrev pub schedule : GpuInfo F T → List Scheduled → List Scheduled
  schedule g pending = pending ++ (record { gpu_uuid = g.uuid; node_name = g.node_name } ∷ [])

  -- The calls of `scheduleForDeletion` stand under a test.
  abbrev pub schedule_if : Bool → GpuInfo F T → List Scheduled → List Scheduled
  schedule_if b g pending = if b then schedule g pending else pending

module _ {F T S : Type 0} where
  -- `GetConfigForFastPod`
  unfoldable pub config_for_fast_pod : FastFunc F T → FastPod S → Option (Config F T)
  unfolding lookup
  config_for_fast_pod fn pod = lookup (annotation "config_uuid" pod.annotations) fn.configs

-- The answers of the endpoint `/current-configs`: an HTTP status, or the configurations that are encoded.
pub data Response (F T : Type 0) : Type 0 where
  bad_request missing : Response F T
  configs_found : List (Config F T) → Response F T

module _ {F T : Type 0} ⦃f : Float F⦄ where
  -- A function that is met for the first time.
  abbrev pub new_function : String → FastFunc F T
  new_function name = record {
    name = name;
    configs = [];
    current_rps_capacity = nought;
    scale_down_count = pos 0;
  }

  abbrev pub or_new : String → Option (FastFunc F T) → FastFunc F T
  or_new name none = new_function name
  or_new name (some fn) = fn

module _ {F T : Type 0} where
  -- The handler of `/current-configs`, given the parameter `name` of the request.
  unfoldable pub current_configs_endpoint : String → GoMap String (FastFunc F T) → Response F T
  unfolding current_configs lookup
  current_configs_endpoint name functions =
      if name == "" then bad_request else elim (lookup name functions) [
        | none ↦ missing
        | some fn ↦ configs_found (current_configs fn)
      ]

module _ {W C F T : Type 0} where
  abbrev pub put_function : FastFunc F T → State W C F T → State W C F T
  put_function fn st = record st { functions = insert fn.name fn st.functions }

  abbrev pub with_heap : Heap F T → State W C F T → State W C F T
  with_heap heap st = record st { site = record st.site { heap = heap } }

  abbrev pub with_world : W → State W C F T → State W C F T
  with_world w st = record st { site = record st.site { world = w } }
