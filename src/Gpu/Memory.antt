-- ===== src/Gpu/Memory.antt =====
-- What `AllocateAndCommitConfig`, `DeallocateConfig` and `ReduceConfig` of
-- internal/controller/gpu_manager.go do to the packer, the configuration and the memory counter.
use fa_st_gshare_autoscaler.Gpu.Removal.{
  Emptied, remove_items-Emptied, remove_items-lookup, remove_items-lookup_gone,
  remove_some-eq-remove_items,
}
use fa_st_gshare_autoscaler.Shelf.Remove.{is_empty_iff}
use fa_st_gshare_autoscaler.Gpu.Replicas.{Filling, insert_replicas-Filling}
use fa_st_gshare_autoscaler.Gpu.{
  Config, GpuInfo, allocate_and_commit_config, available_memory, deallocate_config, insert_replicas,
  reduce_config, remove_items,
}
use fa_st_gshare_autoscaler.Shelf.Invariant.{IsValid, find}
use fa_st_gshare_autoscaler.Shelf.{ShelfPacker}
use fa_st_gshare_autoscaler.Common.{
  int_eq, +ℤ_parts, -ℤ_parts, Bool, Bool-cases, Float, GoMap, Option-cases, [], add64, add64_parts,
  arith, eq_of_parts, eqb_ℤ, false, inl, inr, lookup, ltb_ℤ, mul64, mul64-pos, neg_part, none,
  one_sign, pos, pos_part, refl, sub64, sub64_parts, sym, take, true, ℕ, ℤ, ◌*◌, ◌+ℤ◌, ◌+◌, ◌-ℤ◌,
  ◌-◌, ◌<ℤ◌, ◌<◌, ◌^◌, ◌↔◌, ◌∙◌, ◌≡◌, ◌≤ℤ◌, ◌≤◌,
}

-- A number of bytes or replicas far from the limits of an int64.
abbrev pub IsModest : ℤ → Type 0
IsModest a = (pos_part a < 2 ^ 61) × (neg_part a < 2 ^ 61)

-- What is asked of a configuration before it is allocated: sizes that are not negative, a product
-- that is far from overflow, and no shelf items yet.
pub record IsFresh {F T : Type 0} (c : Config F T) : Type 0 where
  pub memory : neg_part c.memory_req ≡ 0
  pub replicas : neg_part c.required_replica ≡ 0
  pub product : pos_part c.memory_req * pos_part c.required_replica < 2 ^ 62
  pub replicas_lt : pos_part c.required_replica < 2 ^ 62
  pub items : c.shelf_items ≡ []

-- A product is split along a sum of its second factor.
split_product : (m r n d : ℕ) → r ≡ n + d → m * r ≡ m * n + m * d
split_product m r n d e = grind arith

sub64-eq : (a : ℤ) (p : ℕ) → IsModest a → p < 2 ^ 62 → sub64 a (pos p) ≡ a -ℤ pos p
sub64-eq a p modest h =
    ground
      (arith, sub64_parts a (pos p), -ℤ_parts a (pos p), eq_of_parts (sub64 a (pos p)) (a -ℤ pos p))

sub64-sub :
    (t u : ℤ) (p : ℕ)
    → IsModest t
    → IsModest u
    → p < 2 ^ 62
    → sub64 t (u -ℤ pos p) ≡ t -ℤ u +ℤ pos p
sub64-sub t u p ht hu hp = ground (
  arith,
  -ℤ_parts u (pos p),
  sub64_parts t (u -ℤ pos p),
  -ℤ_parts t u,
  +ℤ_parts (t -ℤ u) (pos p),
  one_sign (u -ℤ pos p),
  eq_of_parts (sub64 t (u -ℤ pos p)) (t -ℤ u +ℤ pos p),
)

mul_mono : (m a b : ℕ) → a ≤ b → m * a ≤ m * b
mul_mono m a b h = grind arith

-- To reserve for all replicas and give back for those that failed is to take for those inserted.
reserve_and_return :
    (usage memory required n : ℤ)
    → IsModest usage
    → neg_part memory ≡ 0
    → neg_part required ≡ 0
    → neg_part n ≡ 0
    → n <ℤ required
    → pos_part required < 2 ^ 62
    → pos_part memory * pos_part required < 2 ^ 62
    → add64 (sub64 usage (mul64 memory required)) (mul64 memory (sub64 required n))
      ≡ usage -ℤ pos (pos_part memory * pos_part n)
reserve_and_return usage memory required n modest hm hr hn lt small product =
    let rest = sub64 required n in
    let parts = sub64_parts required n in
    let rest_neg : neg_part rest ≡ 0 = ground (arith, parts, one_sign rest) in
    let rest_pos : pos_part required ≡ pos_part n + pos_part rest =
      ground (arith, parts, one_sign rest) in
    let split =
      split_product (pos_part memory) (pos_part required) (pos_part n) (pos_part rest) rest_pos in
    let all = pos_part memory * pos_part required in
    let back = pos_part memory * pos_part rest in
    rw
      (
        mul64-pos memory required hm hr (omega arith),
        mul64-pos memory rest hm rest_neg (omega arith),
      )
      (ground (
        arith,
        sub64_parts usage (pos all),
        one_sign (sub64 usage (pos all)),
        add64_parts (sub64 usage (pos all)) (pos back),
        -ℤ_parts usage (pos (pos_part memory * pos_part n)),
        eq_of_parts (add64 (sub64 usage (pos all)) (pos back))
            (usage -ℤ pos (pos_part memory * pos_part n)),
      ))

module _ {F T : Type 0} ⦃f : Float F⦄ where
  abbrev loop : GpuInfo F T → Config F T → ShelfPacker F × GoMap ℤ Bool × ℤ
  loop g c =
      insert_replicas (pos_part c.required_replica) c.quota_req c.sm_partition g.usage c.shelf_items
        (pos 0)

  module _ (g : GpuInfo F T) (c : Config F T) (v : IsValid g.usage) (fresh : IsFresh c)
      (ids : pos_part g.usage.next_item_id + pos_part c.required_replica < 2 ^ 63) where
    loop-Filling :
        (k : ℕ) × Filling g.usage
          (pos_part c.required_replica)
          (loop g c).0
          (loop g c).1
          (loop g c).2
          k
    loop-Filling = rw fresh.items (
        insert_replicas-Filling g.usage (pos_part c.required_replica) c.quota_req c.sm_partition v
          ids)

    -- On a valid packer whose ids do not run out, AllocateAndCommitConfig of a fresh
    -- configuration (sizes not negative, products far from overflow, no shelf items yet) keeps
    -- the packer valid; it allocates from none to all of the replicas required, and reports no
    -- error exactly if it allocates all of them.
    pub allocate-IsValid :
        IsValid (allocate_and_commit_config g c).0.usage
        × (pos 0 ≤ℤ (allocate_and_commit_config g c).1.allocated_replica)
        × ((allocate_and_commit_config g c).1.allocated_replica ≤ℤ c.required_replica)
        × (((allocate_and_commit_config g c).2 ≡ true)
            ↔ ((allocate_and_commit_config g c).1.allocated_replica ≡ c.required_replica))
    unfolding allocate_and_commit_config
    allocate-IsValid =
        let (k, h) = loop-Filling in
        let replicas = fresh.replicas in
        let count = h.counted in
        let sign = h.nonneg in (h.valid, omega arith, omega arith, ground arith)

    -- On a valid packer whose ids do not run out, with a memory counter far from the limits of
    -- an int64, AllocateAndCommitConfig of a fresh configuration lowers the memory counter by
    -- what the allocated replicas need, also when some of them fail.
    pub allocate-usage_memory :
        IsModest g.usage_memory
        → (allocate_and_commit_config g c).0.usage_memory
          ≡ g.usage_memory
            -ℤ pos (
                pos_part c.memory_req
                * pos_part (allocate_and_commit_config g c).1.allocated_replica)
    unfolding allocate_and_commit_config
    allocate-usage_memory modest =
        let (k, h) = loop-Filling in
        let replicas = fresh.replicas in
        let count = h.counted in
        let sign = h.nonneg in
        let n = (loop g c).2 in
        elim (Bool-cases (ltb_ℤ n c.required_replica)) [
          | inl short ↦ rw short (
              reserve_and_return g.usage_memory c.memory_req c.required_replica n modest
                fresh.memory fresh.replicas sign (ground arith) fresh.replicas_lt fresh.product)
          | inr full ↦
              let same : n ≡ c.required_replica =
                ground (arith, eq_of_parts n c.required_replica) in
              let product = fresh.product in
              rw full (
                rw same (
                  rw
                    (mul64-pos c.memory_req c.required_replica fresh.memory fresh.replicas
                      (omega arith))
                    (sub64-eq g.usage_memory _ modest product)))
        ]

    -- On a valid packer whose ids do not run out, with memory sizes far from the limits of an
    -- int64, AllocateAndCommitConfig of a fresh configuration makes the available memory grow by
    -- what the allocated replicas need, instead of falling.
    pub available_memory-allocate :
        IsModest g.usage_memory
        → IsModest g.total_memory
        → available_memory (allocate_and_commit_config g c).0
          ≡ g.total_memory
            -ℤ g.usage_memory
            +ℤ pos (
                pos_part c.memory_req
                * pos_part (allocate_and_commit_config g c).1.allocated_replica)
    unfolding available_memory allocate_and_commit_config
    available_memory-allocate modest modest' =
        let n = (allocate_and_commit_config g c).1.allocated_replica in
        let (_, low, high, _) = allocate-IsValid in
        let replicas = fresh.replicas in
        let product = fresh.product in
        let le =
          mul_mono (pos_part c.memory_req) (pos_part n) (pos_part c.required_replica)
            (ground (arith, one_sign n)) in
        rw (allocate-usage_memory modest) (
          sub64-sub (allocate_and_commit_config g c).0.total_memory g.usage_memory
            (pos_part c.memory_req * pos_part n) modest' modest (omega arith))

  -- DeallocateConfig, on a GPU with a valid packer and any configuration: the packer stays
  -- valid, the configuration's items are gone from it and from the configuration, all other
  -- items stay, and the flag says whether nothing is left.
  pub deallocate_lem :
      (g : GpuInfo F T) (c : Config F T)
      → IsValid g.usage
      → Emptied c.shelf_items g.usage (deallocate_config g c).0.usage
        × ((id : ℤ) → lookup id (deallocate_config g c).1.shelf_items ≡ none)
        × (((deallocate_config g c).2 ≡ true)
            ↔ ((id : ℤ) → find (deallocate_config g c).0.usage id ≡ none))
  unfolding deallocate_config
  deallocate_lem g c v =
      let emptied = remove_items-Emptied c.shelf_items c.shelf_items g.usage v in
      (
        emptied,
        λ id. elim (Option-cases (lookup id c.shelf_items)) [
          | inl n ↦ remove_items-lookup c.shelf_items c.shelf_items g.usage id n ∙ n
          | inr (b, e) ↦ remove_items-lookup_gone c.shelf_items c.shelf_items g.usage id b e
        ],
        is_empty_iff (remove_items c.shelf_items (g.usage, c.shelf_items)).0 emptied.valid,
      )

  -- On a valid packer whose ids do not run out, the allocation of a fresh configuration (sizes
  -- not negative, products far from overflow, no shelf items yet) is undone by deallocation:
  -- every id names on the packer what it did before, whatever part of the replicas could be
  -- inserted.
  pub deallocate-allocate :
      (g : GpuInfo F T) (c : Config F T)
      → IsValid g.usage
      → IsFresh c
      → pos_part g.usage.next_item_id + pos_part c.required_replica < 2 ^ 63
      → (id : ℤ)
      → find
          (deallocate_config
            (allocate_and_commit_config g c).0
            (allocate_and_commit_config g c).1).0.usage
          id
        ≡ find g.usage id
  unfolding allocate_and_commit_config deallocate_config
  deallocate-allocate g c v fresh ids id =
      let (k, h) = loop-Filling g c v fresh ids in
      let emptied = remove_items-Emptied (loop g c).1 (loop g c).1 (loop g c).0 h.valid in
      elim (Option-cases (lookup id (loop g c).1)) [
        | inl n ↦ emptied.kept id n ∙ h.kept id n
        | inr (b, e) ↦ emptied.gone id b e ∙ sym (h.added id b e)
      ]

  -- ReduceConfig to fewer replicas, not negative, on a valid packer, removes from it exactly the
  -- first items of the order, as many as the replicas it is to reduce by (or all, if there are
  -- fewer), keeps the packer valid and all other items in place; it leaves the configuration's
  -- count and requests per second as they were.
  pub reduce_lem :
      (g : GpuInfo F T) (c : Config F T) (replicas : ℤ)
      → IsValid g.usage
      → pos 0 ≤ℤ replicas
      → replicas <ℤ c.allocated_replica
      → pos_part c.allocated_replica < 2 ^ 63
      → Emptied
          (take (pos_part c.allocated_replica - pos_part replicas) c.shelf_items)
          g.usage
          (reduce_config g c replicas).0.usage
        × ((reduce_config g c replicas).1.allocated_replica ≡ c.allocated_replica)
        × ((reduce_config g c replicas).1.allocated_rps ≡ c.allocated_rps)
  unfolding reduce_config
  reduce_lem g c replicas v low lt small =
      let count = sub64 c.allocated_replica replicas in
      let parts = sub64_parts c.allocated_replica replicas in
      let k = pos_part c.allocated_replica - pos_part replicas in
      let sign = one_sign count in
      let sign' = one_sign replicas in
      let sign'' = one_sign c.allocated_replica in
      let value : count ≡ pos k = ground (arith, eq_of_parts count (pos k)) in
      let some_count : eqb_ℤ (pos k) (pos 0) ≡ false = ground arith in
      rw value (
        rw some_count (
          rw
              (remove_some-eq-remove_items (pos k) c.shelf_items (pos 0) g.usage c.shelf_items k
                (omega arith) refl (omega arith))
              (remove_items-Emptied (take k c.shelf_items) c.shelf_items g.usage v),
          refl,
          refl,
        ))
