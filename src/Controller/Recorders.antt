-- ===== src/Controller/Recorders.antt =====
-- The items on the GPUs and the records of `fastFuncMap` of internal/controller: what `UpdateFunction` and
-- `handleDeletedFaSTFunc` leave unrecorded.
use fa_st_gshare_autoscaler.Controller.Owners.{Others, Owner, Owner-cases}
use fa_st_gshare_autoscaler.Update.Full.{FullBeside}
use fa_st_gshare_autoscaler.Select.Pick.Drawn.{DrawnIn, DrawnIn-wider}
use fa_st_gshare_autoscaler.Gpu.Allocated.{Ignores, IsAllocated}
use fa_st_gshare_autoscaler.Gpu.Items.{item_on}
use fa_st_gshare_autoscaler.Functions.{FastFunc, new_function, or_new}
use fa_st_gshare_autoscaler.Gpu.{Config, GpuInfo}
use mathlib.Core.Option.{none-ne-some, some-injective}
use fa_st_gshare_autoscaler.Common.{
  int_eq, nat_eq, string_eq, Eq-cases, Float, GoMap, List, Option-cases, String, ap, arith, delete,
  delete-cases, inl, inr, insert, lookup, lookup-delete_ne, lookup-insert_ne, lookup-insert_self,
  none, some, subst, sym, ℕ, ℤ, ◌∙◌, ◌≡◌, ◌≤◌, ◌⊎◌,
}

module _ {F T : Type 0} (new_uuid : ℕ → String) where
  -- Every item on a GPU is recorded by a configuration of a known function. The configurations
  -- have replicas, and UUIDs among the first `drawn`.
  pub record IsFull (drawn : ℕ) (heap : List (GpuInfo F T))
      (functions : GoMap String (FastFunc F T)) : Type 0 where
    pub full :
        (i : ℕ) (id : ℤ)
        → ((name u : String) (c : Config F T) → Owner functions name u c → Ignores i id c)
        → item_on heap i id ≡ none
    pub allocated : (name u : String) (c : Config F T) → Owner functions name u c → IsAllocated c
    pub drew :
        (name u : String) (c : Config F T) → Owner functions name u c → DrawnIn new_uuid 0 drawn c

  module _ {drawn : ℕ} {heap : List (GpuInfo F T)} {functions : GoMap String (FastFunc F T)}
      (p : IsFull drawn heap functions) where
    IsFull-known :
        (name : String) (fn : FastFunc F T)
        → lookup name functions ≡ some fn
        → FullBeside (Others functions name) new_uuid drawn heap fn.configs
    IsFull-known name fn e = record {
      full = λ i id os ms. p.full i id (λ k u c (fn', e', q). elim (Eq-cases name k) [
        | inl hit ↦ ms u c (
            subst (λ (x : FastFunc F T). lookup u x.configs ≡ some c)
              (some-injective _ _ (sym e' ∙ ap (λ j. lookup j functions) (sym hit) ∙ e)) q)
        | inr miss ↦ os c (k, u, miss, (fn', e', q))
      ]);
      allocated = λ u c q. p.allocated name u c (fn, e, q);
      named = λ u c q. p.drew name u c (fn, e, q);
    }

    IsFull-new :
        ⦃f : Float F⦄ (name : String)
        → lookup name functions ≡ none
        → FullBeside
            (Others functions name)
            new_uuid
            drawn
            heap
            (new_function {F = F} {T = T} name).configs
    unfolding lookup
    IsFull-new name e = record {
      full = λ i id os ms. p.full i id (λ k u c (fn', e', q). elim (Eq-cases name k) [
        | inl hit ↦ absurd (none-ne-some fn' (sym e ∙ ap (λ j. lookup j functions) hit ∙ e'))
        | inr miss ↦ os c (k, u, miss, (fn', e', q))
      ]);
      allocated = λ u c q. ground arith;
      named = λ u c q. ground arith;
    }

    pub IsFull-FullBeside :
        ⦃f : Float F⦄ (name : String)
        → FullBeside
            (Others functions name)
            new_uuid
            drawn
            heap
            (or_new name (lookup name functions)).configs
    IsFull-FullBeside name = elim (Option-cases (lookup name functions)) [
      | inl e ↦ rw e (IsFull-new name e)
      | inr (fn, e) ↦ rw e (IsFull-known name fn e)
    ]

    pub IsFull-put :
        (name : String) (fn : FastFunc F T) (heap' : List (GpuInfo F T)) (drawn' : ℕ)
        → drawn ≤ drawn'
        → FullBeside (Others functions name) new_uuid drawn' heap' fn.configs
        → IsFull drawn' heap' (insert name fn functions)
    IsFull-put name fn heap' drawn' le b = record {
      full = λ i id h.
          b.full i id
            (λ d (k, u, ne, (fn', e, q)).
              h k u d (fn', lookup-insert_ne name k fn functions ne ∙ e, q))
            (λ u c q. h name u c (fn, lookup-insert_self name fn functions, q));
      allocated = λ k u c q. elim (Owner-cases functions name fn k u c q) [
        | inl (hit, own) ↦ b.allocated u c own
        | inr (miss, own) ↦ p.allocated k u c own
      ];
      drew = λ k u c q. elim (Owner-cases functions name fn k u c q) [
        | inl (hit, own) ↦ b.named u c own
        | inr (miss, own) ↦
            DrawnIn-wider new_uuid 0 drawn 0 drawn' c (omega arith) le (p.drew k u c own)
      ];
    }

    -- A function is forgotten, and the items of its configurations are gone.
    pub IsFull-forget :
        (name : String) (fn : FastFunc F T) (heap' : List (GpuInfo F T))
        → lookup name functions ≡ some fn
        → ((i : ℕ) (id : ℤ)
            → ((u : String) (c : Config F T) → lookup u fn.configs ≡ some c → Ignores i id c)
              ⊎ (item_on heap' i id ≡ none))
        → ((i : ℕ) (id : ℤ) → item_on heap i id ≡ none → item_on heap' i id ≡ none)
        → IsFull drawn heap' (delete name functions)
    IsFull-forget name fn heap' e cleared lost = record {
      full = λ i id h. elim (cleared i id) [
        | inr free ↦ free
        | inl mine ↦ lost i id (
            (IsFull-known name fn e).full i id
              (λ d (k, u, ne, (fn', e', q)).
                h k u d (fn', lookup-delete_ne name k functions ne ∙ e', q))
              mine)
      ];
      allocated = λ k u c (fn', e', q).
          p.allocated k u c (fn', (delete-cases name k fn' functions e').1, q);
      drew = λ k u c (fn', e', q). p.drew k u c (fn', (delete-cases name k fn' functions e').1, q);
    }
