-- ===== src/Update/Shrunk.antt =====
-- Which items the configurations of a function hold after a scale-down of `UpdateFunction`
-- (internal/controller/fastfunc_scale.go).
use fa_st_gshare_autoscaler.Update.Once.{Differ, ReduceOnce}
use fa_st_gshare_autoscaler.Update.Released.{apply_reduction-Takes, apply_removal-Takes}
use fa_st_gshare_autoscaler.Update.Bookkeeping.{apply_reduction-AreSound, apply_removal-AreSound}
use fa_st_gshare_autoscaler.Update.Beside.{OwnedBeside}
use fa_st_gshare_autoscaler.Gpu.Owned.{
  Apart-Shrinks, Apart-sym, IsHeld, IsHeld-TakesOne, Shrinks, Shrinks-refl, reduce_config-IsHeld,
  reduce_config-Shrinks,
}
use fa_st_gshare_autoscaler.Gpu.Takes.{TakesOne}
use fa_st_gshare_autoscaler.Gpu.Valid.{AreSound, AreSound-get}
use fa_st_gshare_autoscaler.Update.{
  Accounts, apply_reduction, apply_reductions, apply_removal, apply_removals,
}
use fa_st_gshare_autoscaler.Scale.{ReduceInfo}
use fa_st_gshare_autoscaler.Gpu.{Config, GpuInfo, reduce_config}
use fa_st_gshare_autoscaler.Common.{
  int_eq, string_eq, All, All-both, All-map, AreDistinct, AreDistinct-delete, AreDistinct-insert,
  Float, GoMap, List, Option-cases, String, [], ap, delete, delete-cases, get_elem?, inl, inr,
  insert, insert-cases, lookup, some, subst, sym, ◌∙◌, ◌∷◌, ◌≡◌, ◌≢◌,
}

module _ {F T : Type 0} (start : GoMap String (Config F T)) where
  -- A configuration of the start, under its UUID.
  abbrev pub IsOld : Config F T → Type 0
  IsOld c = lookup c.uuid start ≡ some c

  -- A configuration that is still to be reduced.
  abbrev pub IsPending : List (GpuInfo F T) → Config F T → Type 0
  IsPending heap c = IsOld c × IsHeld heap c

-- A scale-down of a function that had the configurations `start`.
module _ {F T : Type 0} (others : Config F T → Type 0) (start : GoMap String (Config F T)) where
  -- What is left are configurations of the start with some of their items, which they hold.
  pub record Shrunk (heap : List (GpuInfo F T)) (m : GoMap String (Config F T)) : Type 0 where
    pub distinct : AreDistinct m
    pub from :
        (u : String) (d : Config F T)
        → lookup u m ≡ some d
        → (c : Config F T) × (lookup u start ≡ some c) × Shrinks c d
    pub held : (u : String) (d : Config F T) → lookup u m ≡ some d → IsHeld heap d
    pub others_held : (d : Config F T) → others d → IsHeld heap d

  module _ {heap0 : List (GpuInfo F T)} (o : OwnedBeside others heap0 start) where
    pub Shrunk-start : Shrunk heap0 start
    Shrunk-start = record {
      distinct = o.distinct;
      from = λ u d e. (d, e, Shrinks-refl d);
      held = o.held;
      others_held = o.others_held;
    }

    pub Shrunk-OwnedBeside :
        (heap : List (GpuInfo F T)) (m : GoMap String (Config F T))
        → Shrunk heap m
        → OwnedBeside others heap m
    Shrunk-OwnedBeside heap m s = record {
      distinct = s.distinct;
      keyed = λ u d e. let (c, old, t) = s.from u d e in t.same_uuid ∙ o.keyed u c old;
      held = s.held;
      apart = λ u v d d' e e' ne.
          let (c, old, t) = s.from u d e in
          let (c', old', t') = s.from v d' e' in
          Apart-Shrinks c d c' d' t t' (o.apart u v c c' old old' ne);
      others_held = s.others_held;
      others_apart = λ u d x p e.
          let (c, old, t) = s.from u d e in
          Apart-Shrinks x x c d (Shrinks-refl x) t (o.others_apart u c x p old);
    }

    -- What is taken from `c` is not taken from a configuration stored under another UUID.
    module _ {heap heap' : List (GpuInfo F T)} {m : GoMap String (Config F T)} (c : Config F T)
        (old : IsOld start c) (t : TakesOne c heap heap') (s : Shrunk heap m) where
      others-IsHeld-after : (d : Config F T) → others d → IsHeld heap' d
      others-IsHeld-after d p =
          IsHeld-TakesOne heap heap' c d t (Apart-sym d c (o.others_apart c.uuid c d p old))
            (s.others_held d p)

      IsHeld-after :
          (u : String) (d : Config F T) → c.uuid ≢ u → lookup u m ≡ some d → IsHeld heap' d
      IsHeld-after u d ne e =
          let (d0, there, r) = s.from u d e in
          IsHeld-TakesOne heap heap' c d t
            (Apart-Shrinks c c d0 d (Shrinks-refl c) r (o.apart c.uuid u c d0 old there ne))
            (s.held u d e)

      Shrunk-remove : Shrunk heap' (delete c.uuid m)
      Shrunk-remove = record {
        distinct = AreDistinct-delete c.uuid m s.distinct;
        from = λ u d e. s.from u d (delete-cases c.uuid u d m e).1;
        held = λ u d e.
            IsHeld-after u d (delete-cases c.uuid u d m e).0 (delete-cases c.uuid u d m e).1;
        others_held = others-IsHeld-after;
      }

      Shrunk-reduce :
          (c' : Config F T) → Shrinks c c' → IsHeld heap' c' → Shrunk heap' (insert c'.uuid c' m)
      Shrunk-reduce c' r h = record {
        distinct = AreDistinct-insert c'.uuid c' m s.distinct;
        from = λ u d e. elim (insert-cases c'.uuid u c' d m e) [
          | inl (hit, same) ↦
              subst (λ x. (c0 : Config F T) × (lookup u start ≡ some c0) × Shrinks c0 x) same
                (c, ap (λ y. lookup y start) (sym hit ∙ r.same_uuid) ∙ old, r)
          | inr (miss, before) ↦ s.from u d before
        ];
        held = λ u d e. elim (insert-cases c'.uuid u c' d m e) [
          | inl (hit, same) ↦ subst (IsHeld heap') same h
          | inr (miss, before) ↦ IsHeld-after u d (λ q. miss (r.same_uuid ∙ q)) before
        ];
        others_held = others-IsHeld-after;
      }

    module _ ⦃f : Float F⦄ where
      pub apply_removal-Shrunk :
          (c : Config F T) (acc : Accounts F T)
          → IsOld start c
          → AreSound 0 acc.heap
          → Shrunk acc.heap acc.fn.configs
          → Shrunk (apply_removal c acc).heap (apply_removal c acc).fn.configs
      unfolding apply_removal
      apply_removal-Shrunk c acc old sound s =
          elim (Option-cases (get_elem? acc.heap c.associated_gpu)) [
            | inl e ↦ rw (e, apply_removal) s
            | inr (g, e) ↦
                let taken = (apply_removal-Takes c acc sound).0 in
                rw (e, apply_removal) (Shrunk-remove c old (rw (e, apply_removal) at taken) s)
          ]

      apply_removals-Shrunk :
          (cs : List (Config F T)) (acc : Accounts F T)
          → All (IsOld start) cs
          → AreSound 0 acc.heap
          → Shrunk acc.heap acc.fn.configs
          → Shrunk (apply_removals cs acc).heap (apply_removals cs acc).fn.configs
      unfolding apply_removals
      apply_removals-Shrunk [] acc old sound s = s
      apply_removals-Shrunk (c ∷ cs) acc (p, old) sound s =
          apply_removals-Shrunk cs (apply_removal c acc) old (apply_removal-AreSound 0 c acc sound)
            (apply_removal-Shrunk c acc p sound s)

      pub apply_reduction-Shrunk :
          (info : ReduceInfo F T) (acc : Accounts F T)
          → IsOld start info.config
          → IsHeld acc.heap info.config
          → AreSound 0 acc.heap
          → Shrunk acc.heap acc.fn.configs
          → Shrunk (apply_reduction info acc).heap (apply_reduction info acc).fn.configs
      unfolding apply_reduction
      apply_reduction-Shrunk info acc old held sound s =
          let c = info.config in
          elim (Option-cases (get_elem? acc.heap c.associated_gpu)) [
            | inl e ↦ rw (e, apply_reduction) s
            | inr (g, e) ↦
                let v = (AreSound-get 0 acc.heap c.associated_gpu g sound e).packer.valid in
                let taken = apply_reduction-Takes info acc sound in
                rw (e, apply_reduction)
                  (Shrunk-reduce c old (rw (e, apply_reduction) at taken) s
                    (reduce_config g c info.new_replica).1
                    (reduce_config-Shrinks g c info.new_replica v)
                    (reduce_config-IsHeld acc.heap g c info.new_replica v e held))
          ]

      pub IsPending-after :
          (info : ReduceInfo F T) (acc : Accounts F T)
          → IsOld start info.config
          → AreSound 0 acc.heap
          → (d : Config F T) → Differ info.config d × IsPending start acc.heap d
          → IsPending start (apply_reduction info acc).heap d
      IsPending-after info acc old sound d (ne, (there, held)) = (
        there,
        IsHeld-TakesOne acc.heap (apply_reduction info acc).heap info.config d
            (apply_reduction-Takes info acc sound)
            (o.apart info.config.uuid d.uuid info.config d old there ne) held,
      )

      pub accounts-Shrunk :
          (infos : List (ReduceInfo F T)) (cs : List (Config F T)) (acc : Accounts F T)
          → ReduceOnce infos
          → All (λ i. IsPending start acc.heap i.config) infos
          → All (IsOld start) cs
          → AreSound 0 acc.heap
          → Shrunk acc.heap acc.fn.configs
          → Shrunk
              (apply_removals cs (apply_reductions infos acc)).heap
              (apply_removals cs (apply_reductions infos acc)).fn.configs
      unfolding apply_reductions
      accounts-Shrunk [] cs acc once pending old sound s = apply_removals-Shrunk cs acc old sound s
      accounts-Shrunk (info ∷ infos) cs acc (apart, once) ((p, held), pending) old sound s =
          let acc' = apply_reduction info acc in
          accounts-Shrunk infos cs acc' once
            (All-map (λ i. Differ info.config i.config × IsPending start acc.heap i.config)
              (λ i. IsPending start acc'.heap i.config) infos
              (λ i. IsPending-after info acc p sound i.config)
              (All-both (λ i. Differ info.config i.config) (λ i. IsPending start acc.heap i.config)
                infos apart pending))
            old (apply_reduction-AreSound 0 info acc sound)
            (apply_reduction-Shrunk info acc p held sound s)
