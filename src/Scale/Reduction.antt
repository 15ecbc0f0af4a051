-- ===== src/Scale/Reduction.antt =====
-- What `scaleDownFaSTFunc` of internal/controller/fastfunc_reconcile.go takes away.
use fa_st_gshare_autoscaler.Gpu.{Config}
use fa_st_gshare_autoscaler.Scale.{
  ReduceInfo, Verdict, drop, halt, judge, leave, max_removable, plan, shrink,
}
use fa_st_gshare_autoscaler.Common.{
  string_eq, int_eq, All, Float, InRange, List, [], arith, inl, inr, pos, refl, sub64_parts, ◌<ℤ◌,
  ◌∷◌, ◌≡◌, ◌≤ℤ◌, ◌≼◌, ◌⊎◌,
}

module _ {F T : Type 0} ⦃f : Float F⦄ where
  -- What each verdict says of the sum that the loop goes on with.
  pub judge-drop :
      (new_rps current : F) (c : Config F T)
      → judge new_rps current c ≡ drop
      → new_rps ≼ f.fsub current c.allocated_rps
  unfolding judge
  judge-drop new_rps current c e = ground arith

  pub judge-shrink :
      (new_rps current : F) (c : Config F T) (info : ReduceInfo F T)
      → judge new_rps current c ≡ shrink info
      → new_rps ≼ f.fsub current info.reduced_delta
  unfolding judge
  judge-shrink new_rps current c info e = ground arith

  pub verdict-cases :
      (v : Verdict F T)
      → (v ≡ halt) ⊎ (v ≡ drop) ⊎ (v ≡ leave) ⊎ ((info : ReduceInfo F T) × (v ≡ shrink info))
  verdict-cases halt = inl refl
  verdict-cases drop = inr (inl refl)
  verdict-cases leave = inr (inr (inl refl))
  verdict-cases (shrink info) = inr (inr (inr (info, refl)))

  -- The configurations removed, and those reduced.
  abbrev pub Shrinks : ReduceInfo F T → Type 0
  Shrinks info = (pos 1 ≤ℤ info.new_replica) × (info.new_replica <ℤ info.config.allocated_replica)

  judge-Shrinks :
      (new_rps current : F) (c : Config F T) (info : ReduceInfo F T)
      → InRange c.allocated_replica
      → judge new_rps current c ≡ shrink info
      → Shrinks info × (info.config ≡ c)
  unfolding judge
  judge-Shrinks new_rps current c info range e =
      ground (arith, sub64_parts c.allocated_replica (max_removable new_rps current c))

  -- Every configuration that scaleDownFaSTFunc plans to reduce keeps at least one replica and
  -- loses at least one, if the replica counts are 64-bit integers.
  pub plan-Shrinks :
      (new_rps : F) (cs : List (Config F T)) (current : F)
      → All (λ (c : Config F T). InRange c.allocated_replica) cs
      → All Shrinks (plan new_rps cs current).0
  unfolding plan
  plan-Shrinks new_rps [] current h = tt
  plan-Shrinks new_rps (c ∷ cs) current (hc, h) = elim (verdict-cases (judge new_rps current c)) [
    | inl e ↦ rw (e, plan) tt
    | inr (inl e) ↦ rw (e, plan) (plan-Shrinks new_rps cs (f.fsub current c.allocated_rps) h)
    | inr (inr (inl e)) ↦ rw (e, plan) (plan-Shrinks new_rps cs current h)
    | inr (inr (inr (info, e))) ↦
        rw (e, plan)
          (
            (judge-Shrinks new_rps current c info hc e).0,
            plan-Shrinks new_rps cs (f.fsub current info.reduced_delta) h,
          )
  ]
