-- ===== src/Shelf/Calls.antt =====
-- `Insert` and `CanFit` of internal/shelf/shelf.go as their callers see them.
use fa_st_gshare_autoscaler.Shelf.Insert.{insert_item_cases, opened-IsValid, placed-IsValid}
use fa_st_gshare_autoscaler.Shelf.Adds.{
  Adds, find-Adds_ne, find-Adds_self, opened, opened-Adds, placed, placed-Adds,
}
use fa_st_gshare_autoscaler.Shelf.{
  Error, Item, Shelf, ShelfPacker, bad_size, can_fit, insert_rect, place, some_takes, takes,
}
use fa_st_gshare_autoscaler.Shelf.Invariant.{IsValid, find, found}
use fa_st_gshare_autoscaler.Common.{
  int_eq, nat_eq, Float, List, Option-cases, Result, [], add64, add64_parts, ap, arith, err, false,
  get_elem?, inl, inr, leb_ℤ, lookup, none, ok, one_sign, pos, pos_part, refl, some, sub64, suc,
  true, zero, ℕ, ℤ, ◌+◌, ◌<ℤ◌, ◌<◌, ◌^◌, ◌||◌, ◌↔◌, ◌∷◌, ◌≡◌, ◌≢◌, ◌≤ℤ◌, ◌≤◌,
}

-- `Insert` has succeeded.
abbrev pub Succeeds : {A : Type 0} → Result Error A → Type 0
Succeeds (ok a) = Unit {0}
Succeeds (err e) = ⊥

module _ {F : Type 0} ⦃f : Float F⦄ where
  -- The packer of which `Insert` has taken the next id.
  abbrev pub bumped : ShelfPacker F → ShelfPacker F
  bumped sp = record sp { next_item_id = add64 sp.next_item_id (pos 1) }

  abbrev pub new_item : ShelfPacker F → F → ℤ → Item F
  new_item sp width height = record { id = sp.next_item_id; width = width; height = height }

  module _ (sp : ShelfPacker F) (v : IsValid sp) where
    next-unknown : lookup sp.next_item_id sp.item_location ≡ none
    next-unknown = elim (Option-cases (lookup sp.next_item_id sp.item_location)) [
      | inl e ↦ e
      | inr (i, e) ↦ absurd (omega (arith, v.fresh sp.next_item_id i e))
    ]

    module _ (ids_left : pos_part sp.next_item_id + 1 < 2 ^ 63) where
      lt-bumped : sp.next_item_id <ℤ (bumped sp).next_item_id
      lt-bumped = omega (arith, add64_parts sp.next_item_id (pos 1), v.next_positive)

      bumped-IsValid : IsValid (bumped sp)
      bumped-IsValid = record {
        shelves_ok = v.shelves_ok;
        used = v.used;
        within = v.within;
        max_range = v.max_range;
        agrees = v.agrees;
        fresh = λ id i e. omega (arith, v.fresh id i e, lt-bumped);
        next_positive = omega (arith, v.next_positive, lt-bumped);
      }

  bad_size_none :
      (width : F) (height : ℤ) (sp : ShelfPacker F)
      → bad_size width height sp ≡ none
      → (pos 0 <ℤ height) × (height ≤ℤ sp.max_height)
  unfolding bad_size
  bad_size_none width height sp e = ground arith

  -- Insert keeps a valid packer valid, whatever it is given and whether it succeeds or fails, as
  -- long as the counter of ids is below its 64-bit maximum. Valid means that the used height is
  -- the sum of the shelf heights and within the maximum, that every shelf holds an item and is
  -- as high as each of its items, and that the index says exactly which item is on which shelf.
  pub insert_rect-IsValid :
      (sp : ShelfPacker F) (width : F) (height : ℤ)
      → IsValid sp
      → pos_part sp.next_item_id + 1 < 2 ^ 63
      → IsValid (insert_rect sp width height).0
  unfolding insert_rect
  insert_rect-IsValid sp width height v left = elim (Option-cases (bad_size width height sp)) [
    | inr (e, bad) ↦ rw (bad, insert_rect) v
    | inl fine ↦
        let size = bad_size_none width height sp fine in
        let b = bumped-IsValid sp v left in
        let unknown = next-unknown sp v in
        let lt = lt-bumped sp v left in
        rw (fine, insert_rect)
          (insert_item_cases (λ r. IsValid r.0) (bumped sp) (new_item sp width height)
            (λ i ss' p. placed-IsValid (bumped sp) _ b unknown lt size.0 i ss' p)
            (λ n room. opened-IsValid (bumped sp) _ b unknown lt size.0 room size.1) (λ n tight. b))
  ]

  -- `Insert` uses up at most one id.
  pub next-insert_rect :
      (sp : ShelfPacker F) (width : F) (height : ℤ)
      → IsValid sp
      → pos_part sp.next_item_id + 1 < 2 ^ 63
      → pos_part (insert_rect sp width height).0.next_item_id ≤ pos_part sp.next_item_id + 1
  unfolding insert_rect
  next-insert_rect sp width height v left = elim (Option-cases (bad_size width height sp)) [
    | inr (e, bad) ↦ rw (bad, insert_rect) (omega arith)
    | inl fine ↦
        let next = add64_parts sp.next_item_id (pos 1) in
        let positive = v.next_positive in
        let le : pos_part (bumped sp).next_item_id ≤ pos_part sp.next_item_id + 1 =
          ground (arith, next, one_sign (add64 sp.next_item_id (pos 1))) in
        rw (fine, insert_rect)
          (insert_item_cases (λ r. pos_part r.0.next_item_id ≤ pos_part sp.next_item_id + 1)
            (bumped sp) (new_item sp width height) (λ i ss' p. le) (λ n room. le) (λ n tight. le))
  ]

  -- What a caller of `Insert` may rely on.
  abbrev pub Inserted : ShelfPacker F → Item F → ShelfPacker F × Result Error ℤ → Type 0
  Inserted sp item (sp', ok id) =
      (id ≡ item.id)
      × (find sp id ≡ none)
      × (find sp' id ≡ some item)
      × ((j : ℤ) → id ≢ j → find sp' j ≡ find sp j)
  Inserted sp item (sp', err e) =
      (sp'.shelves ≡ sp.shelves)
      × (sp'.item_location ≡ sp.item_location)
      × (sp'.used_height ≡ sp.used_height)

  Adds-Inserted :
      (sp sp' : ShelfPacker F) (item : Item F)
      → lookup item.id sp.item_location ≡ none
      → Adds item sp sp'
      → Inserted sp item (sp', ok item.id)
  Adds-Inserted sp sp' item unknown a =
      (refl, ap (found sp.shelves item.id) unknown, find-Adds_self a, find-Adds_ne a)

  -- Insert on a valid packer: on success the id is the next one, it was free, it now names an
  -- item of the given size, and every other id names what it did; on failure no shelf and no
  -- index changes.
  pub insert_rect-Inserted :
      (sp : ShelfPacker F) (width : F) (height : ℤ)
      → IsValid sp
      → Inserted sp (new_item sp width height) (insert_rect sp width height)
  unfolding insert_rect
  insert_rect-Inserted sp width height v = elim (Option-cases (bad_size width height sp)) [
    | inr (e, bad) ↦ rw (bad, insert_rect) (refl, refl, refl)
    | inl fine ↦
        let unknown = next-unknown sp v in
        let item = new_item sp width height in
        rw (fine, insert_rect)
          (insert_item_cases (Inserted sp item) (bumped sp) item
            (λ i ss' p.
              Adds-Inserted (bumped sp) (placed (bumped sp) item i ss') item unknown
                (placed-Adds (bumped sp) item i ss' p))
            (λ n room.
              Adds-Inserted (bumped sp) (opened (bumped sp) item) item unknown
                (opened-Adds (bumped sp) item))
            (λ n tight. (refl, refl, refl)))
  ]

  some_takes-place :
      (item : Item F) (ss : List (Shelf F))
      → place item ss ≡ none
      → some_takes item.width item.height ss ≡ false
  unfolding some_takes place
  some_takes-place item [] e = refl
  some_takes-place item (s ∷ ss) e =
      ground (arith, some_takes-place item ss, Option-cases (place item ss))

  some_takes-get :
      (item : Item F) (ss : List (Shelf F)) (i : ℕ) (s : Shelf F)
      → get_elem? ss i ≡ some s
      → takes item.width item.height s ≡ true
      → some_takes item.width item.height ss ≡ true
  unfolding some_takes
  some_takes-get item [] i s e t = ground arith
  some_takes-get item (x ∷ ss) zero s e t = ground arith
  some_takes-get item (x ∷ ss) (suc i) s e t = ground (arith, some_takes-get item ss i s)

  -- For a size that Insert accepts, CanFit says exactly whether Insert will succeed, on any
  -- packer.
  pub can_fit-insert_rect :
      (sp : ShelfPacker F) (width : F) (height : ℤ)
      → bad_size width height sp ≡ none
      → (can_fit sp width height ≡ true) ↔ Succeeds (insert_rect sp width height).1
  unfolding can_fit insert_rect
  can_fit-insert_rect sp width height fine =
      let item = new_item sp width height in
      rw (fine, insert_rect)
        (insert_item_cases
          (λ r.
            ((some_takes width height sp.shelves
                || leb_ℤ height (sub64 sp.max_height sp.used_height))
              ≡ true)
            ↔ Succeeds r.1)
          (bumped sp) item
          (λ i ss' p. (λ e. tt, λ s. rw (some_takes-get item sp.shelves i p.shelf p.there p.room)))
          (λ n room. (λ e. tt, λ s. rw (some_takes-place item sp.shelves n) (ground arith)))
          (λ n tight. (rw (some_takes-place item sp.shelves n) (λ e. ground arith), λ s. absurd s)))
