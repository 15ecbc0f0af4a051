-- ===== src/Scale.antt =====
-- internal/controller/fastfunc_scale.go and fastfunc_reconcile.go: when a function is scaled, and
-- which of its configurations are reduced or removed to scale it down.
use fa_st_gshare_autoscaler.Gpu.{Config}
use fa_st_gshare_autoscaler.Common.{
  string_eq, int_eq, Bool, Float, List, [], add64, if◌then◌else◌, leb_ℤ, ltb, ltb_ℤ, not, nought,
  pos, sub64, ℕ, ℤ, ◌&&◌, ◌||◌, ◌∷◌,
}
pub mod Decision
pub mod Reduction
pub mod Capacity
pub mod Sums
pub mod Left

-- What one call of `UpdateFunction` reads: the measured rates, the least rate to maintain, whether the
-- function is known, its capacity and the number of its configurations.
pub record Reading (F : Type 0) : Type 0 where
  pub rps10s : F
  pub rps30s : F
  pub rps30s_earlier : F
  pub min_rps : F
  pub is_old_function : Bool
  pub capacity : F
  pub config_count : ℕ

-- `shouldScaleUp`, `shouldScaleDown` or neither.
pub data Action : Type 0 where
  scale_up scale_down stay : Action

module _ {F : Type 0} ⦃f : Float F⦄ where
  open f use {fadd, fsub, fmul, fdiv, flt, fle, fmax, decimal}

  -- `totalRPSCap`
  abbrev pub total_rps_cap : Reading F → F
  total_rps_cap r = if r.is_old_function then r.capacity else nought

  -- `predictedRate`: the rate with its recent growth, and at least the minimum.
  unfoldable pub predicted_rate : Reading F → F
  predicted_rate r =
      let growth = fsub r.rps10s r.rps30s_earlier in
      fmax (if flt nought growth then fadd r.rps10s growth else r.rps10s) r.min_rps

  -- `deltaUp`
  unfoldable pub delta_up : Reading F → F
  unfolding predicted_rate
  delta_up r = fsub (fmul (predicted_rate r) (decimal 15 1)) (total_rps_cap r)

  -- `loadRatio`
  unfoldable pub load_ratio : Reading F → F
  load_ratio r = if flt nought (total_rps_cap r) then fdiv r.rps10s (total_rps_cap r) else nought

  -- The condition to scale up.
  unfoldable pub is_short : Reading F → Bool
  unfolding delta_up
  is_short r = flt nought (delta_up r) || not r.is_old_function

  -- The condition that is counted towards scaling down.
  unfoldable pub is_quiet : Reading F → Bool
  unfolding load_ratio
  is_quiet r =
      flt (load_ratio r) (decimal 5 1)
      && ltb 1 r.config_count
      && fle (fsub r.rps10s r.rps30s) nought

  -- The decision of `UpdateFunction`, with the counter `scaleDownConsecutiveCount` before and after.
  unfoldable pub decide : Reading F → ℤ → Action × ℤ
  unfolding is_short is_quiet
  decide r count =
      if is_short r
      then (scale_up, pos 0)
      else if is_quiet r
      then (if leb_ℤ (pos 3) (add64 count (pos 1))
          then (scale_down, pos 0)
          else (stay, add64 count (pos 1)))
      else (stay, pos 0)

  -- The counter after the calls with those readings, the latest first, from a new function.
  unfoldable pub counter_after : List (Reading F) → ℤ
  unfolding decide
  counter_after [] = pos 0
  counter_after (r ∷ earlier) = (decide r (counter_after earlier)).1

-- `ReduceInfo`
pub record ReduceInfo (F T : Type 0) : Type 0 where
  pub config : Config F T
  pub new_replica : ℤ
  pub reduced_delta : F

-- What the loop of `scaleDownFaSTFunc` does with a configuration: `break`, remove it, reduce its
-- replicas, or pass over it.
pub data Verdict (F T : Type 0) : Type 0 where
  halt drop leave : Verdict F T
  shrink : ReduceInfo F T → Verdict F T

module _ {F T : Type 0} ⦃f : Float F⦄ where
  open f use {fadd, fsub, fmul, fdiv, fle, floor, to_int, of_int}

  -- `maxRemovableReplicas`
  unfoldable pub max_removable : F → F → Config F T → ℤ
  max_removable new_rps current c = to_int (floor (fdiv (fsub current new_rps) c.qps_per_replica))

  unfoldable pub reduce_to : F → Config F T → ℤ → ReduceInfo F T
  reduce_to current c removable =
      let left = sub64 c.allocated_replica removable in
      let new_replica = if ltb_ℤ left (pos 1) then pos 1 else left in
      record {
        config = c;
        new_replica = new_replica;
        reduced_delta =
            fsub current (fsub c.allocated_rps (fmul (of_int new_replica) c.qps_per_replica));
      }

  -- The body of the loop over the sorted configurations.
  unfoldable pub judge : F → F → Config F T → Verdict F T
  unfolding max_removable reduce_to
  judge new_rps current c =
      let removable = max_removable new_rps current c in
      let info = reduce_to current c removable in
      if fle current new_rps
      then halt
      else if leb_ℤ c.allocated_replica removable
      then (if fle new_rps (fsub current c.allocated_rps) then drop else halt)
      else if ltb_ℤ (pos 0) removable
      then (if fle new_rps (fsub current info.reduced_delta) then shrink info else halt)
      else leave

  -- The loop: the configurations to reduce, those to remove, and `currentRPS` at its end.
  unfoldable pub plan : F → List (Config F T) → F → List (ReduceInfo F T) × List (Config F T) × F
  unfolding judge
  plan new_rps [] current = ([], [], current)
  plan new_rps (c ∷ cs) current = elim (judge new_rps current c) [
    | halt ↦ ([], [], current)
    | drop ↦
        let (updates, removals, end) = plan new_rps cs (fsub current c.allocated_rps) in
        (updates, c ∷ removals, end)
    | shrink info ↦
        let (updates, removals, end) = plan new_rps cs (fsub current info.reduced_delta) in
        (info ∷ updates, removals, end)
    | leave ↦ plan new_rps cs current
  ]

  unfoldable pub sum_rps : List (Config F T) → F → F
  sum_rps [] acc = acc
  sum_rps (c ∷ cs) acc = sum_rps cs (fadd acc c.allocated_rps)

  -- `scaleDownFaSTFunc` up to its calls of the cluster; `sort` stands for `sort.Slice` by `AllocatedRPS`.
  unfoldable pub scale_down_plan :
      (List (Config F T) → List (Config F T))
      → List (Config F T)
      → F
      → List (ReduceInfo F T) × List (Config F T) × F
  unfolding plan sum_rps
  scale_down_plan sort configs new_rps =
      let sorted = sort configs in plan new_rps sorted (sum_rps sorted nought)
