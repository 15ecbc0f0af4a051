-- ===== src/Shelf/Remove.antt =====
-- `Remove` and `IsEmpty` of internal/shelf/shelf.go as their callers see them.
use fa_st_gshare_autoscaler.Shelf.Calls.{
  Inserted, insert_rect-Inserted, insert_rect-IsValid, new_item,
}
use fa_st_gshare_autoscaler.Shelf.TakeOut.{
  after-IsValid, collapsed-IsValid, find-after_ne, find-after_self, find-collapsed, left,
  remove_cases, take_out_cases,
}
use fa_st_gshare_autoscaler.Shelf.Invariant.{IsShelf, IsValid, find, found, item_at, item_of}
use fa_st_gshare_autoscaler.Shelf.{
  Error, Item, Shelf, ShelfPacker, collapse, id_not_found, insert_rect, is_empty, remove,
}
use fa_st_gshare_autoscaler.Common.{
  int_eq, nat_eq, Eq-cases, Float, List, Option-cases, Result, [], ap, arith, err, inl, inr, lookup,
  lookup-some_of_ne_nil, none, ok, pos_part, refl, some, subst, sym, true, ℕ, ℤ, ◌+◌, ◌<◌, ◌^◌, ◌↔◌,
  ◌∙◌, ◌∷◌, ◌≡◌, ◌≢◌,
}

module _ {F : Type 0} ⦃f : Float F⦄ where
  -- Remove keeps a valid packer valid, whatever id it is given.
  pub remove-IsValid : (sp : ShelfPacker F) (id : ℤ) → IsValid sp → IsValid (remove sp id).0
  remove-IsValid sp id v =
      remove_cases (λ r. IsValid r.0) sp id v (λ e. v)
        (λ h.
          take_out_cases sp id v h IsValid (after-IsValid sp id v h) (collapsed-IsValid sp id v h))

  -- `Remove` leaves the counter of ids.
  pub next-remove :
      (sp : ShelfPacker F) (id : ℤ) → IsValid sp → (remove sp id).0.next_item_id ≡ sp.next_item_id
  unfolding collapse
  next-remove sp id v =
      remove_cases (λ r. r.0.next_item_id ≡ sp.next_item_id) sp id v (λ e. refl)
        (λ h.
          take_out_cases sp id v h (λ sp'. sp'.next_item_id ≡ sp.next_item_id) (λ more. refl)
            (λ last. refl))

  -- What a caller of `Remove` may rely on.
  abbrev pub Removed : ShelfPacker F → ℤ → ShelfPacker F × Result Error ℕ → Type 0
  Removed sp id (sp', ok i) =
      (item : Item F) × (item_at sp.shelves i id ≡ some item)
      × (find sp id ≡ some item)
      × (find sp' id ≡ none)
      × ((j : ℤ) → id ≢ j → find sp' j ≡ find sp j)
  Removed sp id (sp', err e) = (e ≡ id_not_found) × (find sp id ≡ none) × (sp' ≡ sp)

  -- Remove on a valid packer never meets a bad index or a missing item; for an id in use it
  -- returns the index of the item's shelf, and then that id names nothing and every other id
  -- what it did, also when an empty shelf is collapsed; for any other id it fails with
  -- `id_not_found` and changes nothing.
  pub remove-Removed : (sp : ShelfPacker F) (id : ℤ) → IsValid sp → Removed sp id (remove sp id)
  remove-Removed sp id v =
      remove_cases (Removed sp id) sp id v (λ e. (refl, ap (found sp.shelves id) e, refl))
        (λ h.
          let at = ap (item_of id) h.there ∙ h.held in
          let before = ap (found sp.shelves id) h.located ∙ at in
          take_out_cases sp id v h (λ sp'. Removed sp id (sp', ok h.index))
            (λ more. (h.item, at, before, find-after_self sp id v h, find-after_ne sp id v h))
            (λ last. (
              h.item,
              at,
              before,
              find-collapsed sp id v h last id ∙ find-after_self sp id v h,
              λ j ne. find-collapsed sp id v h last j ∙ find-after_ne sp id v h j ne,
            )))

  Removed-self :
      (sp : ShelfPacker F) (id : ℤ) (q : ShelfPacker F × Result Error ℕ)
      → Removed sp id q
      → find q.0 id ≡ none
  Removed-self sp id (sp', ok i) rem = rem.3
  Removed-self sp id (sp', err e) rem = subst (λ s. find s id ≡ none) (sym rem.2) rem.1

  Removed-ne :
      (sp : ShelfPacker F) (id : ℤ) (q : ShelfPacker F × Result Error ℕ)
      → Removed sp id q
      → (j : ℤ) → id ≢ j
      → find q.0 j ≡ find sp j
  Removed-ne sp id (sp', ok i) rem j ne = rem.4 j ne
  Removed-ne sp id (sp', err e) rem j ne = ap (λ s. find s j) rem.2

  -- After `Remove` the id names nothing, whether or not it did before.
  pub find-remove_self :
      (sp : ShelfPacker F) (id : ℤ) → IsValid sp → find (remove sp id).0 id ≡ none
  find-remove_self sp id v = Removed-self sp id (remove sp id) (remove-Removed sp id v)

  pub find-remove_ne :
      (sp : ShelfPacker F) (id : ℤ)
      → IsValid sp
      → (j : ℤ) → id ≢ j
      → find (remove sp id).0 j ≡ find sp j
  find-remove_ne sp id v = Removed-ne sp id (remove sp id) (remove-Removed sp id v)

  undone :
      (sp : ShelfPacker F) (item : Item F) (id : ℤ) (r : ShelfPacker F × Result Error ℤ)
      (q : ShelfPacker F × Result Error ℕ)
      → Inserted sp item r
      → r.1 ≡ ok id
      → Removed r.0 id q
      → (j : ℤ) → find q.0 j ≡ find sp j
  undone sp item id (sp', err x) q ins e rem j = ground arith
  undone sp item id (sp', ok i) (sp'', err x) ins e rem j = ground arith
  undone sp item id (sp', ok i) (sp'', ok k) ins e (it, _, _, gone, others) j =
      let (own, free, held, kept) = ins in
      let same : i ≡ id = ground arith in
      elim (Eq-cases id j) [
        | inl hit ↦
            subst (λ x. find sp'' x ≡ find sp x) hit
              (gone ∙ sym (subst (λ x. find sp x ≡ none) same free))
        | inr miss ↦ others j miss ∙ kept j (λ q. miss (sym same ∙ q))
      ]

  -- Remove undoes Insert on a valid packer whose ids are not used up: after the id returned is
  -- removed, every id names what it did before.
  remove-insert_rect :
      (sp : ShelfPacker F) (width : F) (height id : ℤ)
      → IsValid sp
      → pos_part sp.next_item_id + 1 < 2 ^ 63
      → (insert_rect sp width height).1 ≡ ok id
      → (j : ℤ) → find (remove (insert_rect sp width height).0 id).0 j ≡ find sp j
  remove-insert_rect sp width height id v left e =
      undone sp (new_item sp width height) id (insert_rect sp width height)
        (remove (insert_rect sp width height).0 id) (insert_rect-Inserted sp width height v) e
        (remove-Removed (insert_rect sp width height).0 id
          (insert_rect-IsValid sp width height v left))

  find_nothing : (sp : ShelfPacker F) → IsValid sp → sp.shelves ≡ [] → (id : ℤ) → find sp id ≡ none
  find_nothing sp v e id = elim (Option-cases (lookup id sp.item_location)) [
    | inl n ↦ ap (found sp.shelves id) n
    | inr (i, p) ↦
        ground (arith, v.agrees.sound id i p, ap (λ (ss : List (Shelf F)). item_at ss i id) e)
  ]

  nothing_found :
      (sp : ShelfPacker F) (ss : List (Shelf F))
      → IsValid sp
      → sp.shelves ≡ ss
      → ((id : ℤ) → find sp id ≡ none)
      → ss ≡ []
  nothing_found sp [] v e none_found = refl
  nothing_found sp (s ∷ ss) v e none_found =
      let first : IsShelf s = (rw e at v.shelves_ok).0 in
      let (id, item, held) = lookup-some_of_ne_nil s.items first.filled in
      let at = ap (λ (ss' : List (Shelf F)). item_at ss' 0 id) e ∙ held in
      let located = ap (found sp.shelves id) (v.agrees.complete id 0 item at) ∙ at in
      ground (arith, none_found id)

  -- A valid packer is empty by IsEmpty exactly if no id names an item.
  pub is_empty_iff :
      (sp : ShelfPacker F) → IsValid sp → (is_empty sp ≡ true) ↔ ((id : ℤ) → find sp id ≡ none)
  unfolding is_empty
  is_empty_iff sp v = (
    λ e. find_nothing sp v (ground arith),
    λ h. ground (arith, nothing_found sp sp.shelves v refl h),
  )
