-- ===== src/Update/Beside.antt =====
-- The configurations of one function (`FastFunc` of internal/controller/fastfunc_reconcile.go) beside those of all
-- others, while `UpdateFunction` changes it.
use fa_st_gshare_autoscaler.Gpu.Owned.{Apart, Apart-sym, IsHeld, IsHeld-KeepsAll}
use fa_st_gshare_autoscaler.Gpu.Keeps.{KeepsAll}
use fa_st_gshare_autoscaler.Update.{adopt}
use fa_st_gshare_autoscaler.Functions.{FastFunc}
use fa_st_gshare_autoscaler.Gpu.{Config, GpuInfo}
use fa_st_gshare_autoscaler.Common.{
  int_eq, string_eq, All, All-both, All-map, AreDistinct, AreDistinct-insert, Float, GoMap, List,
  Pairs, String, [], ap, inl, inr, insert, insert-cases, lookup, some, subst, sym, ◌∙◌, ◌∷◌, ◌≡◌,
  ◌≢◌,
}

module _ {F T : Type 0} (others : Config F T → Type 0) where
  -- Each configuration is stored under its UUID, holds its items and shares none with another of
  -- the function or with those `others`, which hold theirs.
  pub record OwnedBeside (heap : List (GpuInfo F T)) (m : GoMap String (Config F T)) : Type 0 where
    pub distinct : AreDistinct m
    pub keyed : (u : String) (c : Config F T) → lookup u m ≡ some c → c.uuid ≡ u
    pub held : (u : String) (c : Config F T) → lookup u m ≡ some c → IsHeld heap c
    pub apart :
        (u v : String) (c d : Config F T)
        → lookup u m ≡ some c
        → lookup v m ≡ some d
        → u ≢ v
        → Apart c d
    pub others_held : (d : Config F T) → others d → IsHeld heap d
    pub others_apart : (u : String) (c d : Config F T) → others d → lookup u m ≡ some c → Apart d c

  pub OwnedBeside-grow :
      (heap heap' : List (GpuInfo F T)) (m : GoMap String (Config F T))
      → KeepsAll heap heap'
      → OwnedBeside heap m
      → OwnedBeside heap' m
  OwnedBeside-grow heap heap' m k o = record {
    distinct = o.distinct;
    keyed = o.keyed;
    held = λ u c e. IsHeld-KeepsAll heap heap' c k (o.held u c e);
    apart = o.apart;
    others_held = λ d p. IsHeld-KeepsAll heap heap' d k (o.others_held d p);
    others_apart = o.others_apart;
  }

  -- A configuration that shares no item with those of the function and with the others.
  abbrev pub IsFarFrom : GoMap String (Config F T) → Config F T → Type 0
  IsFarFrom m c =
      ((u : String) (d : Config F T) → lookup u m ≡ some d → Apart d c)
      × ((d : Config F T) → others d → Apart d c)

  OwnedBeside-insert :
      (heap : List (GpuInfo F T)) (m : GoMap String (Config F T)) (c : Config F T)
      → IsHeld heap c
      → IsFarFrom m c
      → OwnedBeside heap m
      → OwnedBeside heap (insert c.uuid c m)
  OwnedBeside-insert heap m c h far o = record {
    distinct = AreDistinct-insert c.uuid c m o.distinct;
    keyed = λ v d e. elim (insert-cases c.uuid v c d m e) [
      | inl (hit, same) ↦ ap (λ (x : Config F T). x.uuid) (sym same) ∙ hit
      | inr (miss, old) ↦ o.keyed v d old
    ];
    held = λ v d e. elim (insert-cases c.uuid v c d m e) [
      | inl (hit, same) ↦ subst (IsHeld heap) same h
      | inr (miss, old) ↦ o.held v d old
    ];
    apart = λ u v d d' e e' ne. elim (insert-cases c.uuid u c d m e) [
      | inl (hit, same) ↦ elim (insert-cases c.uuid v c d' m e') [
        | inl (hit', same') ↦ absurd (ne (sym hit ∙ hit'))
        | inr (miss', old') ↦ subst (λ x. Apart x d') same (Apart-sym d' c (far.0 v d' old'))
      ]
      | inr (miss, old) ↦ elim (insert-cases c.uuid v c d' m e') [
        | inl (hit', same') ↦ subst (Apart d) same' (far.0 u d old)
        | inr (miss', old') ↦ o.apart u v d d' old old' ne
      ]
    ];
    others_held = o.others_held;
    others_apart = λ v d x p e. elim (insert-cases c.uuid v c d m e) [
      | inl (hit, same) ↦ subst (Apart x) same (far.1 x p)
      | inr (miss, old) ↦ o.others_apart v d x p old
    ];
  }

  IsFarFrom-insert :
      (m : GoMap String (Config F T)) (c d : Config F T)
      → Apart c d
      → IsFarFrom m d
      → IsFarFrom (insert c.uuid c m) d
  IsFarFrom-insert m c d apart far = (
    λ u x e. elim (insert-cases c.uuid u c x m e) [
      | inl (hit, same) ↦ subst (λ y. Apart y d) same apart
      | inr (miss, old) ↦ far.0 u x old
    ],
    far.1,
  )

  All-IsFarFrom :
      (m : GoMap String (Config F T)) (c : Config F T) (cs : List (Config F T))
      → All (Apart c) cs
      → All (IsFarFrom m) cs
      → All (IsFarFrom (insert c.uuid c m)) cs
  All-IsFarFrom m c cs p q =
      All-map (λ d. Apart c d × IsFarFrom m d) (IsFarFrom (insert c.uuid c m)) cs
        (λ d r. IsFarFrom-insert m c d r.0 r.1) (All-both (Apart c) (IsFarFrom m) cs p q)

  module _ ⦃f : Float F⦄ where
    -- The configurations of a scale-up are recorded.
    pub adopt-OwnedBeside :
        (heap : List (GpuInfo F T)) (cs : List (Config F T)) (fn : FastFunc F T)
        → All (IsHeld heap) cs
        → Pairs Apart cs
        → All (IsFarFrom fn.configs) cs
        → OwnedBeside heap fn.configs
        → OwnedBeside heap (adopt cs fn).configs
    unfolding adopt
    adopt-OwnedBeside heap [] fn held apart far o = o
    adopt-OwnedBeside heap (c ∷ cs) fn (h, held) (p, apart) (q, far) o =
        adopt-OwnedBeside heap cs _ held apart (All-IsFarFrom fn.configs c cs p far)
          (OwnedBeside-insert heap fn.configs c h q o)
