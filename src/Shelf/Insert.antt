-- ===== src/Shelf/Insert.antt =====
-- The two ways in which `Insert` of internal/shelf/shelf.go can add its item.
use fa_st_gshare_autoscaler.Shelf.Adds.{
  Adds-Agrees, Adds-fresh, Placed, opened, opened-Adds, own_shelf, place_lem, placed, placed-Adds,
}
use fa_st_gshare_autoscaler.Shelf.{
  Error, Item, Shelf, ShelfPacker, insert_item, no_space, open_shelf, place, put,
}
use fa_st_gshare_autoscaler.Shelf.Invariant.{
  IsShelf, IsValid, total-append, total-set, total_height,
}
use fa_st_gshare_autoscaler.Common.{
  int_eq, nat_eq, All-append, All-get, All-set, Bool-cases, Eq-cases, Float, List, Option-cases,
  Result, [], add64, add64_parts, arith, eq_of_parts, err, false, inl, inr, insert, lookup,
  lookup-insert_ne, lookup-insert_self, ltb_ℤ, none, ok, one_sign, pos, pos_part, refl, sub64,
  sub64_parts, sym, true, ℕ, ℤ, ◌+◌, ◌<ℤ◌, ◌∙◌, ◌∷◌, ◌≡◌, ◌≤ℤ◌, ◌≤◌,
}

module _ {F : Type 0} ⦃f : Float F⦄ where
  pub put-IsShelf :
      (item : Item F) (s : Shelf F) → IsShelf s → item.height ≤ℤ s.height → IsShelf (put item s)
  unfolding put insert
  put-IsShelf item s k h = record {
    positive = k.positive;
    filled = λ e. ground arith;
    holds = λ id it e. elim (Eq-cases item.id id) [
      | inl hit ↦ ground (arith, lookup-insert_self item.id item s.items)
      | inr miss ↦ k.holds id it (sym (lookup-insert_ne item.id id item s.items miss) ∙ e)
    ];
  }

  pub own_shelf-IsShelf : (item : Item F) → pos 0 <ℤ item.height → IsShelf (own_shelf item)
  unfolding lookup
  own_shelf-IsShelf item h = record {
    positive = h;
    filled = λ e. ground arith;
    holds = λ id it e. ground arith;
  }

  -- An item that is new to the packer and no higher than it.
  module _ (sp : ShelfPacker F) (item : Item F) (v : IsValid sp)
      (unknown : lookup item.id sp.item_location ≡ none) (lt : item.id <ℤ sp.next_item_id)
      (positive : pos 0 <ℤ item.height) where
    pub placed-IsValid :
        (i : ℕ) (ss' : List (Shelf F))
        → Placed item sp.shelves i ss'
        → IsValid (placed sp item i ss')
    unfolding put
    placed-IsValid i ss' p =
        let a = placed-Adds sp item i ss' p in
        let ok_shelf = All-get IsShelf sp.shelves i p.shelf v.shelves_ok p.there in
        let same = total-set sp.shelves i p.shelf (put item p.shelf) p.there refl in
        let room = p.room in
        record {
          shelves_ok = rw p.result (
              All-set IsShelf sp.shelves i (put item p.shelf) v.shelves_ok
                (put-IsShelf item p.shelf ok_shelf (ground arith)));
          used = rw (p.result, same) v.used;
          within = rw (p.result, same) v.within;
          max_range = v.max_range;
          agrees = Adds-Agrees a v.agrees unknown;
          fresh = Adds-fresh a sp.next_item_id v.fresh lt;
          next_positive = v.next_positive;
        }

    opened_room :
        ltb_ℤ (sub64 sp.max_height sp.used_height) item.height ≡ false
        → item.height ≤ℤ sp.max_height
        → total_height sp.shelves + pos_part item.height ≤ pos_part sp.max_height
    opened_room room high =
        let used = v.used in
        let below = v.max_range.below in
        let within = v.within in
        ground (arith, sub64_parts sp.max_height sp.used_height, one_sign sp.max_height)

    pub opened-IsValid :
        ltb_ℤ (sub64 sp.max_height sp.used_height) item.height ≡ false
        → item.height ≤ℤ sp.max_height
        → IsValid (opened sp item)
    opened-IsValid room high =
        let a = opened-Adds sp item in
        let sum = total-append sp.shelves (own_shelf item) in
        let fits = opened_room room high in
        record {
          shelves_ok =
              All-append IsShelf sp.shelves (own_shelf item ∷ []) v.shelves_ok
                (own_shelf-IsShelf item positive, tt);
          used = ground (
            arith,
            add64_parts sp.used_height item.height,
            eq_of_parts (add64 sp.used_height item.height)
                (pos (total_height (opened sp item).shelves)),
          );
          within = omega arith;
          max_range = v.max_range;
          agrees = Adds-Agrees a v.agrees unknown;
          fresh = Adds-fresh a sp.next_item_id v.fresh lt;
          next_positive = v.next_positive;
        }

  -- Whatever `insert_item` does, it does by a shelf that has room, by a new shelf, or not at all.
  pub insert_item_cases {ℓ} :
      (P : ShelfPacker F × Result Error ℤ → Type ℓ) (sp : ShelfPacker F) (item : Item F)
      → ((i : ℕ) (ss' : List (Shelf F))
          → Placed item sp.shelves i ss'
          → P (placed sp item i ss', ok item.id))
      → (place item sp.shelves ≡ none
          → ltb_ℤ (sub64 sp.max_height sp.used_height) item.height ≡ false
          → P (opened sp item, ok item.id))
      → (place item sp.shelves ≡ none
          → ltb_ℤ (sub64 sp.max_height sp.used_height) item.height ≡ true
          → P (sp, err no_space))
      → P (insert_item sp item)
  unfolding insert_item open_shelf
  insert_item_cases P sp item old new full = elim (Option-cases (place item sp.shelves)) [
    | inr (r, e) ↦ rw (e, insert_item) (old r.0 r.1 (place_lem item sp.shelves r e))
    | inl e ↦ elim (Bool-cases (ltb_ℤ (sub64 sp.max_height sp.used_height) item.height)) [
      | inl tight ↦ rw (e, insert_item) (rw (tight) (full e tight))
      | inr room ↦ rw (e, insert_item) (rw (room) (new e room))
    ]
  ]
