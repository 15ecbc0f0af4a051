-- ===== src/Tests.antt =====
-- The theorems on concrete inputs, in hundredths for float64: the packer of internal/shelf and the GPUs of
-- internal/controller.
use fa_st_gshare_autoscaler.Gpu.Removal.{Emptied}
use fa_st_gshare_autoscaler.Gpu.Memory.{
  IsFresh, IsModest, allocate-IsValid, available_memory-allocate, deallocate-allocate,
  deallocate_lem, reduce_lem,
}
use fa_st_gshare_autoscaler.Gpu.{
  AllocationTypes, Config, GpuInfo, allocate_and_commit_config, available_memory, deallocate_config,
  new_gpu_dev_info, reduce_config,
}
use fa_st_gshare_autoscaler.Shelf.Remove.{Removed, remove-Removed}
use fa_st_gshare_autoscaler.Shelf.Calls.{
  Inserted, Succeeds, can_fit-insert_rect, insert_rect-Inserted, insert_rect-IsValid, new_item,
}
use fa_st_gshare_autoscaler.Shelf.Invariant.{IsValid, find, new_shelf-IsValid}
use fa_st_gshare_autoscaler.Shelf.{ShelfPacker, bad_size, can_fit, insert_rect, new_shelf, remove}
use fa_st_gshare_autoscaler.Common.{
  if◌then◌else◌, nat_eq, string_eq, int_eq, [], arith, false, lookup, none, pos, pos_part, refl,
  sub64, take, true, ℕ, ℤ, ◌*◌, ◌+ℤ◌, ◌+◌, ◌-ℤ◌, ◌<◌, ◌==◌, ◌^◌, ◌↔◌, ◌∷◌, ◌≡◌, ◌≤ℤ◌,
}
use fa_st_gshare_autoscaler.Common.Fixed.{fixed}
pub mod Control
pub mod Capacity
pub mod Reports
pub mod Cluster
pub mod Lifecycle
pub mod Scaling
pub mod Uuids
pub mod Owned
pub mod Startup

-- Allocation types as numbers.
instance abbrev pub kinds : AllocationTypes ℕ
kinds = record {
  exclusive = 1;
  fast_pod = 2;
  mps = 3;
  unallocated = 0;
  unset = 4;
  same = λ x y. x == y;
  of_name = λ s. if s == "exclusive" then 1 else 2;
  to_name = λ x. "fastpod";
}

abbrev pub base : ShelfPacker ℤ
base = new_shelf (pos 100)

abbrev pub half : ShelfPacker ℤ
half = (insert_rect base (pos 50) (pos 40)).0

pub base-IsValid : IsValid base
base-IsValid = new_shelf-IsValid (pos 100) (record { below = omega arith; above = omega arith })

insert_rect-IsValid_example : IsValid (insert_rect base (pos 50) (pos 40)).0
unfolding new_shelf
insert_rect-IsValid_example = insert_rect-IsValid base (pos 50) (pos 40) base-IsValid (omega arith)

insert_rect-Inserted_example :
    Inserted base (new_item base (pos 50) (pos 40)) (insert_rect base (pos 50) (pos 40))
insert_rect-Inserted_example = insert_rect-Inserted base (pos 50) (pos 40) base-IsValid

half-IsValid : IsValid half
unfolding new_shelf
half-IsValid = insert_rect-IsValid base (pos 50) (pos 40) base-IsValid (omega arith)

remove-Removed_example : Removed half (pos 1) (remove half (pos 1))
remove-Removed_example = remove-Removed half (pos 1) half-IsValid

can_fit-insert_rect_example :
    (can_fit half (pos 60) (pos 70) ≡ true) ↔ Succeeds (insert_rect half (pos 60) (pos 70)).1
unfolding bad_size insert_rect new_shelf sub64
can_fit-insert_rect_example = can_fit-insert_rect half (pos 60) (pos 70) refl

-- A GPU of 16 GB and a configuration of three replicas, of which two fit on its shelves.
abbrev pub gpu : GpuInfo ℤ ℕ
gpu =
    new_gpu_dev_info "node-1" "V100-PCIE-16GB" false none "gpu-1" (pos 16_000_000_000) (pos 100)
      (pos 5)

abbrev pub three : Config ℤ ℕ
three = record {
  allocation_type = 2;
  uuid = "config-1";
  quota_req = pos 60;
  quota_limit = pos 90;
  memory_req = pos 1_000_000_000;
  sm_partition = pos 40;
  node_name = "node-1";
  vgpu_uuid = "gpu-1";
  associated_gpu = 0;
  required_replica = pos 3;
  satisfiable_rps = pos 3000;
  qps_per_replica = pos 1000;
  cost = pos 100;
  remaining_rps = pos 0;
  allocated_replica = pos 0;
  allocated_rps = pos 0;
  shelf_items = [];
  efficiency_score = pos 41;
}

three-IsFresh : IsFresh three
three-IsFresh = record {
  memory = refl;
  replicas = refl;
  product = omega arith;
  replicas_lt = omega arith;
  items = refl;
}

pub gpu-IsValid : IsValid gpu.usage
unfolding new_gpu_dev_info
gpu-IsValid = base-IsValid

gpu-IsModest : IsModest gpu.usage_memory × IsModest gpu.total_memory
unfolding new_gpu_dev_info
gpu-IsModest = ((omega arith, omega arith), (omega arith, omega arith))

ids_left : pos_part gpu.usage.next_item_id + pos_part three.required_replica < 2 ^ 63
unfolding new_gpu_dev_info new_shelf
ids_left = omega arith

allocate-IsValid_example :
    IsValid (allocate_and_commit_config gpu three).0.usage
    × (pos 0 ≤ℤ (allocate_and_commit_config gpu three).1.allocated_replica)
    × ((allocate_and_commit_config gpu three).1.allocated_replica ≤ℤ pos 3)
    × (((allocate_and_commit_config gpu three).2 ≡ true)
        ↔ ((allocate_and_commit_config gpu three).1.allocated_replica ≡ pos 3))
allocate-IsValid_example = allocate-IsValid gpu three gpu-IsValid three-IsFresh ids_left

available_memory-allocate_example :
    available_memory (allocate_and_commit_config gpu three).0
    ≡ gpu.total_memory
      -ℤ gpu.usage_memory
      +ℤ pos (1_000_000_000 * pos_part (allocate_and_commit_config gpu three).1.allocated_replica)
available_memory-allocate_example =
    available_memory-allocate gpu three gpu-IsValid three-IsFresh ids_left gpu-IsModest.0
      gpu-IsModest.1

deallocate-allocate_example :
    find
      (deallocate_config
        (allocate_and_commit_config gpu three).0
        (allocate_and_commit_config gpu three).1).0.usage
      (pos 2)
    ≡ find gpu.usage (pos 2)
deallocate-allocate_example =
    deallocate-allocate gpu three gpu-IsValid three-IsFresh ids_left (pos 2)

-- The GPU and the configuration with two replicas on the shelves.
abbrev pub busy_gpu : GpuInfo ℤ ℕ
busy_gpu = (allocate_and_commit_config gpu three).0

abbrev two : Config ℤ ℕ
two = (allocate_and_commit_config gpu three).1

deallocate_lem_example :
    Emptied two.shelf_items busy_gpu.usage (deallocate_config busy_gpu two).0.usage
    × ((id : ℤ) → lookup id (deallocate_config busy_gpu two).1.shelf_items ≡ none)
    × (((deallocate_config busy_gpu two).2 ≡ true)
        ↔ ((id : ℤ) → find (deallocate_config busy_gpu two).0.usage id ≡ none))
deallocate_lem_example = deallocate_lem busy_gpu two allocate-IsValid_example.0

abbrev pub both : Config ℤ ℕ
both = record three { allocated_replica = pos 2; shelf_items = (pos 1, true) ∷ (pos 2, true) ∷ [] }

reduce_lem_example :
    Emptied (take 1 both.shelf_items) busy_gpu.usage (reduce_config busy_gpu both (pos 1)).0.usage
    × ((reduce_config busy_gpu both (pos 1)).1.allocated_replica ≡ pos 2)
    × ((reduce_config busy_gpu both (pos 1)).1.allocated_rps ≡ pos 0)
reduce_lem_example =
    reduce_lem busy_gpu both (pos 1) allocate-IsValid_example.0 (omega arith) (omega arith)
      (omega arith)
