-- ===== src/Release.antt =====
-- internal/controller/fastfunc_controller.go: the worker that gives virtual GPUs back to their nodes.
-- The queue of the library workqueue is a list, first in first out, with the
-- items that are due; the nodes' servers and the clock are parameters.
use fa_st_gshare_autoscaler.Nodes.{Node, NodeManager, adjust}
use fa_st_gshare_autoscaler.Names.{release_key}
use fa_st_gshare_autoscaler.Common.{
  string_eq, int_eq, Bool, GoMap, List, Option, String, [], add64, delete, if◌then◌else◌, insert,
  lookup, ltb_ℤ, none, pos, some, suc, true, zero, ℕ, ℤ, ◌++◌, ◌∷◌,
}
pub mod Retries

-- `types.NamespacedName`: the namespace and the name. `show` stands for its method `String`.
abbrev pub NamespacedName : Type 0
NamespacedName = String × String

-- `GPUReleaseWorkItem`
pub record WorkItem : Type 0 where
  pub gpu_uuid : String
  pub fast_func_ref : NamespacedName
  pub node_name : String
  pub retry_count : ℤ
  pub timestamp : ℤ

-- The error and the flag that `processGPUReleaseItem` returns; only a failed call is tried again.
pub data Outcome : Type 0 where
  released node_not_found release_failed : Outcome

-- The parts of the reconciler that the worker uses.
pub record Worker (C V : Type 0) : Type 0 where
  pub manager : NodeManager C V
  pub processing : GoMap String Bool
  pub queue : List WorkItem

abbrev pub item_key : (NamespacedName → String) → WorkItem → String
item_key show item = release_key (show item.fast_func_ref) item.gpu_uuid

-- `ReleaseVirtualGPU` of a client: the GPUs available, or `none` for an error.
abbrev pub Releaser : Type 0 → Type 0 → Type 0
Releaser C V = C → String → Option (List V)

-- The item that is added for another try. Its `FastFuncRef` is not set.
abbrev pub retried : ℤ → WorkItem → WorkItem
retried now item = record {
  gpu_uuid = item.gpu_uuid;
  fast_func_ref = ("", "");
  node_name = item.node_name;
  retry_count = add64 item.retry_count (pos 1);
  timestamp = now;
}

-- What the worker adds to the queue, given the marks of the items in process.
unfoldable pub requeue :
    (NamespacedName → String) → ℤ → WorkItem → GoMap String Bool → Outcome → List WorkItem
unfolding lookup
requeue show now item processing released = []
requeue show now item processing node_not_found = []
requeue show now item processing release_failed =
    if ltb_ℤ (pos 10) item.retry_count then [] else elim (lookup (item_key show item) processing) [
      | none ↦ retried now item ∷ []
      | some b ↦ []
    ]

module _ {C V : Type 0} where
  abbrev pub give_back : String → List V → Node C V → Node C V
  give_back uuid gpus n = record n {
    available_gpus = n.available_gpus ++ gpus;
    physical_gpus = delete uuid n.physical_gpus;
  }

  -- The answer of the node's server.
  unfoldable pub conclude : WorkItem → NodeManager C V → Option (List V) → NodeManager C V × Outcome
  unfolding adjust
  conclude item nm none = (nm, release_failed)
  conclude item nm (some gpus) = (
    record nm { nodes = adjust item.node_name (give_back item.gpu_uuid gpus) nm.nodes },
    released,
  )

  -- `processGPUReleaseItem`, but for the mark that it sets and deletes.
  unfoldable pub process_item :
      Releaser C V → WorkItem → NodeManager C V → NodeManager C V × Outcome
  unfolding conclude lookup
  process_item release item nm = elim (lookup item.node_name nm.nodes) [
    | none ↦ (nm, node_not_found)
    | some n ↦ conclude item nm (release n.grpc_client item.gpu_uuid)
  ]

  -- One turn of `runGPUReleaseWorker` on the item that it takes from the queue.
  unfoldable pub work :
      (NamespacedName → String) → Releaser C V → ℤ → WorkItem → Worker C V → Worker C V
  unfolding process_item requeue
  work show release now item w =
      let key = item_key show item in
      let (nm, outcome) = process_item release item w.manager in
      let processing = delete key (insert key true w.processing) in
      record {
        manager = nm;
        processing = processing;
        queue = w.queue ++ requeue show now item processing outcome;
      }

  -- The loop of the worker, for `fuel` turns at most: turn by turn the server may answer differently.
  unfoldable pub run_worker :
      (NamespacedName → String) → (ℕ → Releaser C V) → (ℕ → ℤ) → ℕ → Worker C V → Worker C V
  unfolding work
  run_worker show release clock zero w = w
  run_worker show release clock (suc fuel) w = elim w.queue [
    | [] ↦ w
    | item ∷ rest ↦
        run_worker show release clock fuel
          (work show (release fuel) (clock fuel) item (record w { queue = rest }))
  ]
