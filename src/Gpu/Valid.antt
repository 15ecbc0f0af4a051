-- ===== src/Gpu/Valid.antt =====
-- The heap of GPUs of internal/controller/gpu_manager.go: what each operation on a GPU leaves of the
-- validity of the packers and of the ids that they have left.
use fa_st_gshare_autoscaler.Gpu.Replicas.{insert_replicas_inv}
use fa_st_gshare_autoscaler.Gpu.{
  Config, GpuInfo, allocate_and_commit_config, deallocate_config, insert_replicas, reduce_config,
  remove_items, remove_some,
}
use fa_st_gshare_autoscaler.Shelf.Remove.{next-remove, remove-IsValid}
use fa_st_gshare_autoscaler.Shelf.Calls.{insert_rect-IsValid, next-insert_rect}
use fa_st_gshare_autoscaler.Shelf.Invariant.{IsValid}
use fa_st_gshare_autoscaler.Shelf.{ShelfPacker, insert_rect, remove}
use fa_st_gshare_autoscaler.Common.{
  int_eq, All, All-get, All-set, Bool, Float, GoMap, InRange, List, [], add64, ap, arith, delete,
  get_elem?, if_cases, ltb_ℤ, pos, pos_part, set, some, sub64, suc, ℕ, ℤ, ◌+◌, ◌<◌, ◌==◌, ◌^◌, ◌∷◌,
  ◌≡◌, ◌≤◌,
}

module _ {F : Type 0} ⦃f : Float F⦄ where
  -- A valid packer with ids for `n` more items.
  pub record HasIds (n : ℕ) (u : ShelfPacker F) : Type 0 where
    pub valid : IsValid u
    pub ids : pos_part u.next_item_id + n < 2 ^ 63

  HasIds-remove : (n : ℕ) (u : ShelfPacker F) (id : ℤ) → HasIds n u → HasIds n (remove u id).0
  HasIds-remove n u id h = record {
    valid = remove-IsValid u id h.valid;
    ids = omega (arith, h.ids, ap pos_part (next-remove u id h.valid));
  }

  HasIds-remove_some :
      (n : ℕ) (limit : ℤ) (es : GoMap ℤ Bool) (removed : ℤ) (u : ShelfPacker F)
      (items : GoMap ℤ Bool)
      → HasIds n u
      → HasIds n (remove_some limit es removed (u, items)).0
  unfolding remove_some
  HasIds-remove_some n limit [] removed u items h = h
  HasIds-remove_some n limit ((id, b) ∷ es) removed u items h =
      if_cases (λ (r : ShelfPacker F × GoMap ℤ Bool). HasIds n r.0) (ltb_ℤ removed limit) _
        (u, items)
        (HasIds-remove_some n limit es (add64 removed (pos 1)) (remove u id).0 (delete id items)
          (HasIds-remove n u id h))
        h

  HasIds-remove_items :
      (n : ℕ) (es items : GoMap ℤ Bool) (u : ShelfPacker F)
      → HasIds n u
      → HasIds n (remove_items es (u, items)).0
  unfolding remove_items
  HasIds-remove_items n [] items u h = h
  HasIds-remove_items n ((id, b) ∷ es) items u h =
      HasIds-remove_items n es (delete id items) (remove u id).0 (HasIds-remove n u id h)

  pub HasIds-insert_rect :
      (n left : ℕ) (u : ShelfPacker F) (quota : F) (sm : ℤ)
      → HasIds (n + suc left) u
      → HasIds (n + left) (insert_rect u quota sm).0
  HasIds-insert_rect n left u quota sm h =
      let ids = h.ids in
      record {
        valid = insert_rect-IsValid u quota sm h.valid (omega arith);
        ids = omega (arith, next-insert_rect u quota sm h.valid (omega arith));
      }

  pub HasIds-weaken : (n m : ℕ) (u : ShelfPacker F) → HasIds n u → m ≤ n → HasIds m u
  HasIds-weaken n m u h le = record { valid = h.valid; ids = omega (arith, h.ids) }

  HasIds-insert_replicas :
      (n left : ℕ) (quota : F) (sm : ℤ) (u : ShelfPacker F) (items : GoMap ℤ Bool) (count : ℤ)
      → HasIds (n + left) u
      → HasIds n (insert_replicas left quota sm u items count).0
  HasIds-insert_replicas n left quota sm u items count h =
      (insert_replicas_inv (λ u' items' count' left'. HasIds (n + left') u')
        (λ u' items' count' left'. HasIds n u') quota sm
        (λ u' items' count' k. HasIds-weaken (n + 0) n u' k (omega arith))
        (λ left' u' items' count' id k e. HasIds-insert_rect n left' u' quota sm k)
        (λ left' u' items' count' x k e.
          HasIds-weaken (n + left') n _ (HasIds-insert_rect n left' u' quota sm k) (omega arith))
        left u items count h).1

module _ {F T : Type 0} ⦃f : Float F⦄ where
  -- A GPU with ids for `n` more items, and a share of SMs that is an int64.
  pub record IsSound (n : ℕ) (g : GpuInfo F T) : Type 0 where
    pub packer : HasIds n g.usage
    pub range : InRange g.total_sm_percentage

  abbrev pub AreSound : ℕ → List (GpuInfo F T) → Type 0
  AreSound n heap = All (IsSound n) heap

  pub AreSound-get :
      (n : ℕ) (heap : List (GpuInfo F T)) (i : ℕ) (g : GpuInfo F T)
      → AreSound n heap
      → get_elem? heap i ≡ some g
      → IsSound n g
  AreSound-get n heap i g h e = All-get (IsSound n) heap i g h e

  pub AreSound-set :
      (n : ℕ) (heap : List (GpuInfo F T)) (i : ℕ) (g : GpuInfo F T)
      → AreSound n heap
      → IsSound n g
      → AreSound n (set heap i g)
  AreSound-set n heap i g h s = All-set (IsSound n) heap i g h s

  pub AreSound-weaken :
      (n m : ℕ) (heap : List (GpuInfo F T)) → m ≤ n → AreSound n heap → AreSound m heap
  AreSound-weaken n m [] le h = tt
  AreSound-weaken n m (g ∷ gs) le (s, h) = (
    record { packer = HasIds-weaken n m g.usage s.packer le; range = s.range },
    AreSound-weaken n m gs le h,
  )

  -- `ReduceConfig`
  pub IsSound-reduce_config :
      (n : ℕ) (g : GpuInfo F T) (c : Config F T) (replicas : ℤ)
      → IsSound n g
      → IsSound n (reduce_config g c replicas).0
  unfolding reduce_config
  IsSound-reduce_config n g c replicas s =
      let count = sub64 c.allocated_replica replicas in
      if_cases (λ (r : GpuInfo F T × Config F T × Bool). IsSound n r.0) (count == pos 0) _ _ s
        (record {
          packer = HasIds-remove_some n count c.shelf_items (pos 0) g.usage c.shelf_items s.packer;
          range = s.range;
        })

  -- `DeallocateConfig`
  pub IsSound-deallocate_config :
      (n : ℕ) (g : GpuInfo F T) (c : Config F T) → IsSound n g → IsSound n (deallocate_config g c).0
  unfolding deallocate_config
  IsSound-deallocate_config n g c s = record {
    packer = HasIds-remove_items n c.shelf_items c.shelf_items g.usage s.packer;
    range = s.range;
  }

  -- `AllocateAndCommitConfig`
  pub IsSound-allocate :
      (n : ℕ) (g : GpuInfo F T) (c : Config F T)
      → IsSound (n + pos_part c.required_replica) g
      → IsSound n (allocate_and_commit_config g c).0
  unfolding allocate_and_commit_config
  IsSound-allocate n g c s = record {
    packer =
        HasIds-insert_replicas n (pos_part c.required_replica) c.quota_req c.sm_partition g.usage
          c.shelf_items (pos 0) s.packer;
    range = s.range;
  }
