-- ===== src/Gpu/Keeps.antt =====
-- The items that `AllocateAndCommitConfig` (internal/controller/gpu_manager.go) finds on the GPUs stay there.
use fa_st_gshare_autoscaler.Gpu.Items.{item_in, item_on, item_on-set_ne, item_on-set_self}
use fa_st_gshare_autoscaler.Gpu.Valid.{HasIds, HasIds-insert_rect, HasIds-weaken, IsSound}
use fa_st_gshare_autoscaler.Gpu.Replicas.{insert_replicas_inv}
use fa_st_gshare_autoscaler.Gpu.{Config, GpuInfo, allocate_and_commit_config, insert_replicas}
use fa_st_gshare_autoscaler.Shelf.Calls.{Inserted, insert_rect-Inserted, new_item}
use fa_st_gshare_autoscaler.Shelf.Invariant.{IsValid, find, find_congr}
use fa_st_gshare_autoscaler.Shelf.{Error, Item, ShelfPacker, insert_rect}
use fa_st_gshare_autoscaler.Common.{
  int_eq, nat_eq, Bool, Eq-cases, Float, GoMap, List, Result, [], ap, arith, err, get_elem?, inl,
  inr, none, ok, pos, pos_part, set, some, subst, suc, sym, zero, ℕ, ℤ, ◌++◌, ◌+◌, ◌∙◌, ◌∷◌, ◌≡◌,
}

module _ {F : Type 0} where
  -- Every item on the packer stays.
  abbrev pub Keeps : ShelfPacker F → ShelfPacker F → Type 0
  Keeps u u' = (id : ℤ) (it : Item F) → find u id ≡ some it → find u' id ≡ some it

module _ {F : Type 0} ⦃f : Float F⦄ where
  Inserted-Keeps :
      (u : ShelfPacker F) (item : Item F) (q : ShelfPacker F × Result Error ℤ)
      → Inserted u item q
      → Keeps u q.0
  Inserted-Keeps u item (u', ok x) (own, free, held, kept) id it e = elim (Eq-cases x id) [
    | inl hit ↦ ground (arith, subst (λ y. find u y ≡ none) hit free)
    | inr miss ↦ kept id miss ∙ e
  ]
  Inserted-Keeps u item (u', err x) (same, index, height) id it e =
      find_congr u u' same index id ∙ e

  insert_rect-Keeps :
      (u : ShelfPacker F) (quota : F) (sm : ℤ) → IsValid u → Keeps u (insert_rect u quota sm).0
  insert_rect-Keeps u quota sm v =
      Inserted-Keeps u (new_item u quota sm) (insert_rect u quota sm)
        (insert_rect-Inserted u quota sm v)

  insert_replicas-Keeps :
      (left : ℕ) (quota : F) (sm : ℤ) (u : ShelfPacker F) (items : GoMap ℤ Bool) (count : ℤ)
      → HasIds left u
      → Keeps u (insert_replicas left quota sm u items count).0
  insert_replicas-Keeps left quota sm u items count h =
      (insert_replicas_inv (λ u' items' count' left'. HasIds (0 + left') u' × Keeps u u')
        (λ u' items' count' left'. Keeps u u') quota sm (λ u' items' count' k. k.1)
        (λ left' u' items' count' id k e. (
          HasIds-insert_rect 0 left' u' quota sm k.0,
          λ x it p. insert_rect-Keeps u' quota sm k.0.valid x it (k.1 x it p),
        ))
        (λ left' u' items' count' x k e y it p.
          insert_rect-Keeps u' quota sm k.0.valid y it (k.1 y it p))
        left u items count (HasIds-weaken left (0 + left) u h (omega arith), λ id it e. e)).1

module _ {F T : Type 0} where
  -- Every item on the GPUs stays.
  abbrev pub KeepsAll : List (GpuInfo F T) → List (GpuInfo F T) → Type 0
  KeepsAll heap heap' =
      (i : ℕ) (id : ℤ) (it : Item F) → item_on heap i id ≡ some it → item_on heap' i id ≡ some it

  pub KeepsAll-set :
      (heap : List (GpuInfo F T)) (i : ℕ) (g g' : GpuInfo F T)
      → get_elem? heap i ≡ some g
      → Keeps g.usage g'.usage
      → KeepsAll heap (set heap i g')
  KeepsAll-set heap i g g' e k j id it p = elim (Eq-cases i j) [
    | inl hit ↦
        subst (λ x. item_on heap x id ≡ some it → item_on (set heap i g') x id ≡ some it) hit
          (λ q. item_on-set_self heap i g g' id e ∙ k id it (sym (ap (item_in id) e) ∙ q)) p
    | inr miss ↦ item_on-set_ne heap i j g' id miss ∙ p
  ]

  pub KeepsAll-append : (heap more : List (GpuInfo F T)) → KeepsAll heap (heap ++ more)
  KeepsAll-append [] more i id it p = ground arith
  KeepsAll-append (g ∷ heap) more zero id it p = p
  KeepsAll-append (g ∷ heap) more (suc i) id it p = KeepsAll-append heap more i id it p

  pub KeepsAll-trans : (x y z : List (GpuInfo F T)) → KeepsAll x y → KeepsAll y z → KeepsAll x z
  KeepsAll-trans x y z p q i id it e = q i id it (p i id it e)

module _ {F T : Type 0} ⦃f : Float F⦄ where
  pub allocate-Keeps :
      (g : GpuInfo F T) (c : Config F T)
      → IsSound (pos_part c.required_replica) g
      → Keeps g.usage (allocate_and_commit_config g c).0.usage
  unfolding allocate_and_commit_config
  allocate-Keeps g c s =
      insert_replicas-Keeps (pos_part c.required_replica) c.quota_req c.sm_partition g.usage
        c.shelf_items (pos 0) s.packer
