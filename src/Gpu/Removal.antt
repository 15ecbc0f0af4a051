-- ===== src/Gpu/Removal.antt =====
-- The loops of `DeallocateConfig` and `ReduceConfig` (internal/controller/gpu_manager.go).
use fa_st_gshare_autoscaler.Gpu.{remove_items, remove_some}
use fa_st_gshare_autoscaler.Shelf.Remove.{find-remove_ne, find-remove_self, remove-IsValid}
use fa_st_gshare_autoscaler.Shelf.Invariant.{IsValid, find}
use fa_st_gshare_autoscaler.Shelf.{ShelfPacker, remove}
use fa_st_gshare_autoscaler.Common.{
  int_eq, Bool, Eq-cases, Float, GoMap, Option-cases, [], add64, add64_parts, arith, beq_ne,
  beq_self, delete, false, inl, inr, lookup, lookup-delete_ne, lookup-delete_self, ltb_ℤ, neg_part,
  none, one_sign, pos, pos_part, refl, some, subst, suc, take, true, zero, ℕ, ℤ, ◌-◌, ◌<◌, ◌==◌,
  ◌^◌, ◌∙◌, ◌∷◌, ◌≡◌,
}

module _ {F : Type 0} ⦃f : Float F⦄ where
  -- The ids of `es` name nothing any more, and all others name what they did.
  pub record Emptied (es : GoMap ℤ Bool) (u u' : ShelfPacker F) : Type 0 where
    pub valid : IsValid u'
    pub gone : (id : ℤ) (b : Bool) → lookup id es ≡ some b → find u' id ≡ none
    pub kept : (id : ℤ) → lookup id es ≡ none → find u' id ≡ find u id

  Emptied-cons :
      (x : ℤ) (b : Bool) (es : GoMap ℤ Bool) (u u' : ShelfPacker F)
      → IsValid u
      → Emptied es (remove u x).0 u'
      → Emptied ((x, b) ∷ es) u u'
  unfolding lookup
  Emptied-cons x b es u u' v h = record {
    valid = h.valid;
    gone = λ id b' p. elim (Option-cases (lookup id es)) [
      | inr (b'', q) ↦ h.gone id b'' q
      | inl q ↦ elim (Eq-cases x id) [
        | inl hit ↦
            h.kept id q ∙ subst (λ y. find (remove u x).0 y ≡ none) hit (find-remove_self u x v)
        | inr miss ↦ ground (arith, beq_ne x id miss)
      ]
    ];
    kept = λ id p. elim (Eq-cases x id) [
      | inl hit ↦ ground (arith, subst (λ y. (x == y) ≡ true) hit (beq_self x))
      | inr miss ↦ h.kept id (ground (arith, beq_ne x id miss)) ∙ find-remove_ne u x v id miss
    ];
  }

  pub remove_items-Emptied :
      (es items : GoMap ℤ Bool) (u : ShelfPacker F)
      → IsValid u
      → Emptied es u (remove_items es (u, items)).0
  unfolding remove_items lookup
  remove_items-Emptied [] items u v = record {
    valid = v;
    gone = λ id b p. ground arith;
    kept = λ id p. refl;
  }
  remove_items-Emptied ((x, b) ∷ es) items u v =
      Emptied-cons x b es u _ v
        (remove_items-Emptied es (delete x items) (remove u x).0 (remove-IsValid u x v))

  -- The config's own set loses the ids too.
  pub remove_items-lookup :
      (es items : GoMap ℤ Bool) (u : ShelfPacker F) (id : ℤ)
      → lookup id es ≡ none
      → lookup id (remove_items es (u, items)).1 ≡ lookup id items
  unfolding remove_items lookup
  remove_items-lookup [] items u id p = refl
  remove_items-lookup ((x, b) ∷ es) items u id p = elim (Eq-cases x id) [
    | inl hit ↦ ground (arith, subst (λ y. (x == y) ≡ true) hit (beq_self x))
    | inr miss ↦
        remove_items-lookup es (delete x items) (remove u x).0 id (ground (arith, beq_ne x id miss))
        ∙ lookup-delete_ne x id items miss
  ]

  remove_items-none :
      (es items : GoMap ℤ Bool) (u : ShelfPacker F) (id : ℤ)
      → lookup id items ≡ none
      → lookup id (remove_items es (u, items)).1 ≡ none
  unfolding remove_items
  remove_items-none [] items u id p = p
  remove_items-none ((x, b) ∷ es) items u id p =
      remove_items-none es (delete x items) (remove u x).0 id (elim (Eq-cases x id) [
        | inl hit ↦ subst (λ y. lookup y (delete x items) ≡ none) hit (lookup-delete_self x items)
        | inr miss ↦ lookup-delete_ne x id items miss ∙ p
      ])

  pub remove_items-lookup_gone :
      (es items : GoMap ℤ Bool) (u : ShelfPacker F) (id : ℤ) (b : Bool)
      → lookup id es ≡ some b
      → lookup id (remove_items es (u, items)).1 ≡ none
  unfolding remove_items lookup
  remove_items-lookup_gone [] items u id b p = ground arith
  remove_items-lookup_gone ((x, c) ∷ es) items u id b p = elim (Eq-cases x id) [
    | inl hit ↦
        remove_items-none es (delete x items) (remove u x).0 id
          (subst (λ y. lookup y (delete x items) ≡ none) hit (lookup-delete_self x items))
    | inr miss ↦
        remove_items-lookup_gone es (delete x items) (remove u x).0 id b
          (ground (arith, beq_ne x id miss))
  ]

  -- The loop of `ReduceConfig` takes out the first items of the order, as many as it is to reduce by.
  pub remove_some-eq-remove_items :
      (limit : ℤ) (es : GoMap ℤ Bool) (removed : ℤ) (u : ShelfPacker F) (items : GoMap ℤ Bool)
      (k : ℕ)
      → pos_part limit < 2 ^ 63
      → neg_part removed ≡ 0
      → pos_part limit - pos_part removed ≡ k
      → remove_some limit es removed (u, items) ≡ remove_items (take k es) (u, items)
  unfolding remove_some remove_items
  remove_some-eq-remove_items limit [] removed u items zero h p e = refl
  remove_some-eq-remove_items limit [] removed u items (suc k) h p e = refl
  remove_some-eq-remove_items limit ((id, b) ∷ es) removed u items zero h p e =
      let stop : ltb_ℤ removed limit ≡ false = ground arith in rw stop
  remove_some-eq-remove_items limit ((id, b) ∷ es) removed u items (suc k) h p e =
      let more : ltb_ℤ removed limit ≡ true = ground (arith, one_sign limit) in
      let next = add64_parts removed (pos 1) in
      let sign = one_sign (add64 removed (pos 1)) in
      rw more (
        remove_some-eq-remove_items limit es (add64 removed (pos 1)) (remove u id).0
          (delete id items) k h (ground (arith, next, sign)) (ground (arith, next, sign)))
