-- ===== src/Tests/Lifecycle.antt =====
-- The theorems on runs of calls of internal/shelf and internal/controller on concrete inputs, in hundredths for
-- float64.
use fa_st_gshare_autoscaler.Rounds.Isolation.{Leaves, check_functions-Leaves}
use fa_st_gshare_autoscaler.Update.Entry.{AreNamed, Puts, next_count, update_function-Puts}
use fa_st_gshare_autoscaler.Scale.Decision.{Quiets-scale_down, decide-Quiets}
use fa_st_gshare_autoscaler.Shelf.History.{
  Call, Reach, Reach-IsValid, Runs, inserting, insertion, made, removal, removing, run, run-Runs,
}
use fa_st_gshare_autoscaler.Shelf.Widths.{HasWidths}
use fa_st_gshare_autoscaler.Rounds.{Sources, check_functions}
use fa_st_gshare_autoscaler.Update.{Backend, update_function}
use fa_st_gshare_autoscaler.Functions.{State}
use fa_st_gshare_autoscaler.Pods.Spec.{FastPod, KubeClient}
use fa_st_gshare_autoscaler.Pods.{Answer, done, not_found}
use fa_st_gshare_autoscaler.Api.{FastFuncObject}
use fa_st_gshare_autoscaler.Scale.{counter_after, decide, scale_down}
use fa_st_gshare_autoscaler.Shelf.Invariant.{IsValid, find}
use fa_st_gshare_autoscaler.Shelf.{new_shelf, remove}
use fa_st_gshare_autoscaler.Common.{
  nat_eq, string_eq, int_eq, GoMap, InRange, List, Option, String, [], arith, delete, insert,
  lookup, none, pos, refl, some, true, ℕ, ℤ, ◌∷◌, ◌≡◌, ◌⊎◌,
}
use fa_st_gshare_autoscaler.Common.Fixed.{fixed, fixed-IsOrdered}
use fa_st_gshare_autoscaler.Tests.Control.{calm, node, store, third_calm, unsorted, uuids}
use fa_st_gshare_autoscaler.Tests.{base, base-IsValid, half, kinds}

pub hundred_range : InRange (pos 100)
hundred_range = record { below = omega arith; above = omega arith }

half-Reach : Reach (pos 100) half
unfolding new_shelf
half-Reach = insertion base (pos 50) (pos 40) made refl (omega arith)

Reach-IsValid_example : IsValid (remove half (pos 1)).0 × HasWidths (remove half (pos 1)).0
Reach-IsValid_example =
    Reach-IsValid fixed-IsOrdered (pos 100) (remove half (pos 1)).0 hundred_range
      (removal half (pos 1) half-Reach)

abbrev calls : List (Call ℤ)
calls =
    inserting (pos 50) (pos 40)
    ∷ inserting (pos 60) (pos 70)
    ∷ removing (pos 1)
    ∷ removing (pos 9)
    ∷ []

run-Runs_example : Runs (find base) calls (run calls base).1 (find (run calls base).0)
unfolding new_shelf
run-Runs_example = run-Runs calls base base-IsValid (omega arith)

Quiets-scale_down_example :
    ((decide calm (counter_after {F = ℤ} [])).0 ≡ scale_down)
    ⊎ ((decide calm (counter_after (calm ∷ []))).0 ≡ scale_down)
    ⊎ ((decide calm (counter_after (calm ∷ calm ∷ []))).0 ≡ scale_down)
Quiets-scale_down_example =
    Quiets-scale_down calm calm calm [] ((decide-Quiets calm (calm ∷ calm ∷ [])).0.0 third_calm).1

-- The cluster is the map of its pods, by name.
abbrev pub Pods : Type 0
Pods = GoMap String (FastPod ℕ)

abbrev named : Option (FastPod ℕ) → Answer (FastPod ℕ)
named none = not_found
named (some p) = done p

abbrev kube : KubeClient Pods ℕ
kube = record {
  get = λ w k. (w, named (lookup k.1 w));
  create = λ w p. (insert p.name p w, true);
  update = λ w p. (insert p.name p w, true);
  delete_pod = λ w p. (delete p.name w, true);
}

-- No node provides virtual GPUs.
abbrev pub backend : Backend Pods ℕ ℕ ℤ ℕ
backend = record {
  request = λ w c mps profile. (w, none);
  kube = kube;
  sort_gpus = unsorted;
  sort_configs = λ cs. cs;
  new_uuid = uuids;
  store = store;
  keys = record {
    quota_request = "quota_request";
    quota_limit = "quota_limit";
    sm_partition = "sm_partition";
    memory = "memory";
    node_name = "node_name";
    vgpu_uuid = "vgpu_uuid";
    allocation_type = "allocation_type";
  };
  print = record { two_places = λ x. ""; itoa = λ x. "" };
  own = λ obj p. some p;
}

abbrev pub object : String → GoMap String String → FastFuncObject ℕ
object name annotations = record {
  name = name;
  namespace = "default";
  annotations = annotations;
  spec = record {
    pod_spec = 0;
    min_qps = pos 5;
    model_name = "resnet";
    allocation_type = "exclusive";
  };
}

abbrev pub rates : ℤ × ℤ × ℤ
rates = (pos 100, pos 100, pos 100)

abbrev pub blank : State Pods ℕ ℤ ℕ
blank = record {
  site = record { world = []; nodes = ("node-1", node) ∷ []; heap = [] };
  functions = [];
  scheduled = [];
  drawn = 0;
}

blank-AreNamed : AreNamed blank.functions
unfolding lookup
blank-AreNamed = λ k fn e. ground arith

update_function-Puts_example :
    Puts "f"
      (next_count backend (object "f" []) rates (pos 500) blank)
      []
      (update_function backend (object "f" []) rates (pos 500) "" blank).0.functions
update_function-Puts_example =
    update_function-Puts backend (object "f" []) rates (pos 500) "" blank blank-AreNamed

-- Prometheus reports one request per second, and no annotation is a number.
abbrev sources : Sources Pods ℕ ℤ
sources = record {
  query = λ w q t. (w, some (pos 100 ∷ []));
  atoi = λ s. none;
  list = λ w. (w, some (object "f" [] ∷ []));
}

check_functions-Leaves_example :
    Leaves backend sources
      ("f" ∷ [])
      []
      (check_functions backend sources (λ o. pos 0) (object "f" [] ∷ []) blank).functions
check_functions-Leaves_example =
    check_functions-Leaves backend sources (λ o. pos 0) (object "f" [] ∷ []) blank blank-AreNamed
