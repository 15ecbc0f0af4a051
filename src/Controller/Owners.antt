-- ===== src/Controller/Owners.antt =====
-- Whose items are on the GPUs: `fastFuncMap` of internal/controller with the packers, and what
-- `UpdateFunction` and `handleDeletedFaSTFunc` leave of it.
use fa_st_gshare_autoscaler.Update.Entry.{AreNamed}
use fa_st_gshare_autoscaler.Update.Beside.{OwnedBeside}
use fa_st_gshare_autoscaler.Gpu.Owned.{Apart, Apart-sym, IsHeld}
use fa_st_gshare_autoscaler.Functions.{FastFunc, new_function, or_new}
use fa_st_gshare_autoscaler.Gpu.{Config, GpuInfo}
use fa_st_gshare_autoscaler.Common.{
  int_eq, string_eq, AreDistinct, Float, GoMap, List, Option-cases, String, ap, arith, delete,
  delete-cases, inl, inr, insert, insert-cases, lookup, some, subst, sym, ◌∙◌, ◌≡◌, ◌≢◌, ◌⊎◌,
}

module _ {F T : Type 0} where
  -- A function known under that name has a configuration under that UUID.
  abbrev pub Owner : GoMap String (FastFunc F T) → String → String → Config F T → Type 0
  Owner functions name uuid c =
      (fn : FastFunc F T) × (lookup name functions ≡ some fn) × (lookup uuid fn.configs ≡ some c)

  -- Functions and configurations are stored under their own names, once; each configuration holds
  -- its items, and no two share one.
  pub record IsOwned (heap : List (GpuInfo F T)) (functions : GoMap String (FastFunc F T))
      : Type 0 where
    pub named : AreNamed functions
    pub distinct :
        (name : String) (fn : FastFunc F T)
        → lookup name functions ≡ some fn
        → AreDistinct fn.configs
    pub keyed : (name u : String) (c : Config F T) → Owner functions name u c → c.uuid ≡ u
    pub held : (name u : String) (c : Config F T) → Owner functions name u c → IsHeld heap c
    pub apart :
        (name u : String) (c : Config F T) (name' u' : String) (c' : Config F T)
        → Owner functions name u c
        → Owner functions name' u' c'
        → (name ≡ name' → u ≢ u')
        → Apart c c'

  -- The configurations of the functions under other names.
  abbrev pub Others : GoMap String (FastFunc F T) → String → Config F T → Type 0
  Others functions name d = (k : String) × (u : String) × (name ≢ k) × Owner functions k u d

  -- Who owns a configuration once a function is put: the function, or another as before.
  pub Owner-cases :
      (functions : GoMap String (FastFunc F T)) (name : String) (fn : FastFunc F T) (k u : String)
      (c : Config F T)
      → Owner (insert name fn functions) k u c
      → ((name ≡ k) × (lookup u fn.configs ≡ some c)) ⊎ ((name ≢ k) × Owner functions k u c)
  Owner-cases functions name fn k u c (fn', e, p) = elim (insert-cases name k fn fn' functions e) [
    | inl (hit, same) ↦
        inl (hit, subst (λ (x : FastFunc F T). lookup u x.configs ≡ some c) (sym same) p)
    | inr (miss, old) ↦ inr (miss, (fn', old, p))
  ]

  module _ {heap : List (GpuInfo F T)} {functions : GoMap String (FastFunc F T)}
      (o : IsOwned heap functions) where
    IsOwned-known :
        (name : String) (fn : FastFunc F T)
        → lookup name functions ≡ some fn
        → OwnedBeside (Others functions name) heap fn.configs
    IsOwned-known name fn e = record {
      distinct = o.distinct name fn e;
      keyed = λ u c p. o.keyed name u c (fn, e, p);
      held = λ u c p. o.held name u c (fn, e, p);
      apart = λ u v c d p q ne. o.apart name u c name v d (fn, e, p) (fn, e, q) (λ same. ne);
      others_held = λ d (k, u, ne, own). o.held k u d own;
      others_apart = λ u c d (k, v, ne, own) p.
          o.apart k v d name u c own (fn, e, p) (λ same. absurd (ne (sym same)));
    }

    IsOwned-new :
        ⦃f : Float F⦄ (name : String)
        → OwnedBeside (Others functions name) heap (new_function {F = F} {T = T} name).configs
    unfolding lookup
    IsOwned-new name = record {
      distinct = tt;
      keyed = λ u c p. ground arith;
      held = λ u c p. ground arith;
      apart = λ u v c d p q ne. ground arith;
      others_held = λ d (k, u, ne, own). o.held k u d own;
      others_apart = λ u c d (k, v, ne, own) p. ground arith;
    }

    pub IsOwned-OwnedBeside :
        ⦃f : Float F⦄ (name : String)
        → OwnedBeside (Others functions name) heap (or_new name (lookup name functions)).configs
    IsOwned-OwnedBeside name = elim (Option-cases (lookup name functions)) [
      | inl e ↦ rw e (IsOwned-new name)
      | inr (fn, e) ↦ rw e (IsOwned-known name fn e)
    ]

    module _ (name : String) (fn : FastFunc F T) (own : fn.name ≡ name) (heap' : List (GpuInfo F T))
        (b : OwnedBeside (Others functions name) heap' fn.configs) where
      pub IsOwned-put : IsOwned heap' (insert name fn functions)
      IsOwned-put = record {
        named = λ k fn' e. elim (insert-cases name k fn fn' functions e) [
          | inl (hit, same) ↦ ap (λ (x : FastFunc F T). x.name) (sym same) ∙ own ∙ hit
          | inr (miss, old) ↦ o.named k fn' old
        ];
        distinct = λ k fn' e. elim (insert-cases name k fn fn' functions e) [
          | inl (hit, same) ↦ subst (λ (x : FastFunc F T). AreDistinct x.configs) same b.distinct
          | inr (miss, old) ↦ o.distinct k fn' old
        ];
        keyed = λ k u c p. elim (Owner-cases functions name fn k u c p) [
          | inl (hit, q) ↦ b.keyed u c q
          | inr (miss, q) ↦ o.keyed k u c q
        ];
        held = λ k u c p. elim (Owner-cases functions name fn k u c p) [
          | inl (hit, q) ↦ b.held u c q
          | inr (miss, q) ↦ b.others_held c (k, u, miss, q)
        ];
        apart = λ k u c k' u' c' p p' ne. elim (Owner-cases functions name fn k u c p) [
          | inl (hit, q) ↦ elim (Owner-cases functions name fn k' u' c' p') [
            | inl (hit', q') ↦ b.apart u u' c c' q q' (ne (sym hit ∙ hit'))
            | inr (miss', q') ↦ Apart-sym c' c (b.others_apart u c c' (k', u', miss', q') q)
          ]
          | inr (miss, q) ↦ elim (Owner-cases functions name fn k' u' c' p') [
            | inl (hit', q') ↦ b.others_apart u' c' c (k, u, miss, q) q'
            | inr (miss', q') ↦ o.apart k u c k' u' c' q q' ne
          ]
        ];
      }

    -- The functions left after one is forgotten, on GPUs where they hold their items still.
    pub IsOwned-forget :
        (name : String) (heap' : List (GpuInfo F T))
        → ((d : Config F T) → Others functions name d → IsHeld heap' d)
        → IsOwned heap' (delete name functions)
    IsOwned-forget name heap' h = record {
      named = λ k fn e. o.named k fn (delete-cases name k fn functions e).1;
      distinct = λ k fn e. o.distinct k fn (delete-cases name k fn functions e).1;
      keyed = λ k u c (fn, e, p). o.keyed k u c (fn, (delete-cases name k fn functions e).1, p);
      held = λ k u c (fn, e, p). h c (
        k,
        u,
        (delete-cases name k fn functions e).0,
        (fn, (delete-cases name k fn functions e).1, p),
      );
      apart = λ k u c k' u' c' (fn, e, p) (fn', e', p') ne.
          o.apart k u c k' u' c' (fn, (delete-cases name k fn functions e).1, p)
            (fn', (delete-cases name k' fn' functions e').1, p') ne;
    }
