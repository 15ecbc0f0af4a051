-- ===== src/Update/Full.antt =====
-- The items on the GPUs that no configuration records, while `UpdateFunction` (internal/controller/fastfunc_scale.go)
-- changes a function: there are none.
use fa_st_gshare_autoscaler.Update.Linked.{HaveOwnUuids, lookup-adopt, lookup-adopt_ne}
use fa_st_gshare_autoscaler.Update.Once.{Differ}
use fa_st_gshare_autoscaler.Select.Pick.Drawn.{DrawnIn, DrawnIn-wider}
use fa_st_gshare_autoscaler.Select.Empty.{AddsNone}
use fa_st_gshare_autoscaler.Gpu.Allocated.{Ignores, IsAllocated}
use fa_st_gshare_autoscaler.Gpu.Items.{item_on}
use fa_st_gshare_autoscaler.Update.{adopt}
use fa_st_gshare_autoscaler.Functions.{FastFunc}
use fa_st_gshare_autoscaler.Gpu.{Config, GpuInfo}
use mathlib.Core.Option.{none-ne-some}
use fa_st_gshare_autoscaler.Common.{
  int_eq, nat_eq, string_eq, All, All-map, Float, GoMap, List, Pairs, String, [], arith, inl, inr,
  insert-cases, lookup, none, some, subst, sym, ℕ, ℤ, ◌∙◌, ◌∷◌, ◌≡◌, ◌≢◌, ◌≤◌,
}

module _ {F T : Type 0} (others : Config F T → Type 0) (new_uuid : ℕ → String) where
  -- What neither a configuration of the function nor one of the others records is on no GPU. The
  -- function's configurations have replicas, and UUIDs among the first `drawn`.
  pub record FullBeside (drawn : ℕ) (heap : List (GpuInfo F T)) (m : GoMap String (Config F T))
      : Type 0 where
    pub full :
        (i : ℕ) (id : ℤ)
        → ((d : Config F T) → others d → Ignores i id d)
        → ((u : String) (c : Config F T) → lookup u m ≡ some c → Ignores i id c)
        → item_on heap i id ≡ none
    pub allocated : (u : String) (c : Config F T) → lookup u m ≡ some c → IsAllocated c
    pub named : (u : String) (c : Config F T) → lookup u m ≡ some c → DrawnIn new_uuid 0 drawn c

  pub FullBeside-grow :
      (drawn drawn' : ℕ) (heap heap' : List (GpuInfo F T)) (m : GoMap String (Config F T))
      → AddsNone heap heap'
      → drawn ≤ drawn'
      → FullBeside drawn heap m
      → FullBeside drawn' heap' m
  FullBeside-grow drawn drawn' heap heap' m none_new le o = record {
    full = λ i id os ms. none_new i id (o.full i id os ms);
    allocated = o.allocated;
    named = λ u c e. DrawnIn-wider new_uuid 0 drawn 0 drawn' c (omega arith) le (o.named u c e);
  }

  module _ ⦃f : Float F⦄ where
    -- The configurations of a function after a scale-up are old ones or those recorded.
    adopt-All :
        (P : Config F T → Type 0) (cs : List (Config F T)) (fn : FastFunc F T)
        → ((u : String) (c : Config F T) → lookup u fn.configs ≡ some c → P c)
        → All P cs
        → (u : String) (c : Config F T) → lookup u (adopt cs fn).configs ≡ some c
        → P c
    unfolding adopt
    adopt-All P [] fn old h u c e = old u c e
    adopt-All P (x ∷ cs) fn old (p, h) u c e =
        adopt-All P cs _
          (λ v d q. elim (insert-cases x.uuid v x d fn.configs q) [
            | inl (hit, same) ↦ subst P same p
            | inr (miss, there) ↦ old v d there
          ])
          h u c e

    flip-Differ : (cs : List (Config F T)) → Pairs Differ cs → HaveOwnUuids cs
    flip-Differ [] h = tt
    flip-Differ (c ∷ cs) (p, h) =
        (All-map (Differ c) (λ d. d.uuid ≢ c.uuid) cs (λ d ne e. ne (sym e)) p, flip-Differ cs h)

    pub adopt-FullBeside :
        (drawn : ℕ) (heap heap' : List (GpuInfo F T)) (cs : List (Config F T)) (fn : FastFunc F T)
        → ((i : ℕ) (id : ℤ)
            → item_on heap i id ≡ none
            → All (Ignores i id) cs
            → item_on heap' i id ≡ none)
        → All IsAllocated cs
        → All (DrawnIn new_uuid 0 drawn) cs
        → Pairs Differ cs
        → All (λ c. lookup c.uuid fn.configs ≡ none) cs
        → FullBeside drawn heap fn.configs
        → FullBeside drawn heap' (adopt cs fn).configs
    adopt-FullBeside drawn heap heap' cs fn full allocated named differ unknown o =
        let m' = (adopt cs fn).configs in
        let here = lookup-adopt cs fn (flip-Differ cs differ) in
        record {
          full = λ i id os ms.
              full i id
                (o.full i id os (λ u c e. ms u c (
                  lookup-adopt_ne u cs fn (
                    All-map (λ d. lookup d.uuid fn.configs ≡ none) (λ d. d.uuid ≢ u) cs
                      (λ d n same.
                        none-ne-some c
                          (sym n ∙ subst (λ v. lookup v fn.configs ≡ some c) (sym same) e))
                      unknown)
                  ∙ e)))
                (All-map (λ c. lookup c.uuid m' ≡ some c) (Ignores i id) cs (λ c e. ms c.uuid c e)
                  here);
          allocated = adopt-All IsAllocated cs fn o.allocated allocated;
          named = adopt-All (DrawnIn new_uuid 0 drawn) cs fn o.named named;
        }
