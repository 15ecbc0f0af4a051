-- ===== src/Shelf/TakeOut.antt =====
-- What `Remove` of internal/shelf/shelf.go does once it has found the item: the shelf loses the item,
-- and an empty shelf is collapsed.
use fa_st_gshare_autoscaler.Shelf.{
  Error, Item, Shelf, ShelfPacker, collapse, id_not_found, remove, take_out,
}
use fa_st_gshare_autoscaler.Shelf.Location.{
  Agrees, Agrees-collapse, Agrees-delete, at-elsewhere, at-lowered, lowered,
}
use fa_st_gshare_autoscaler.Shelf.Invariant.{
  IsShelf, IsValid, find, found, found_congr, item_at, item_at-set, item_of, total-remove_at,
  total-set, total_height,
}
use fa_st_gshare_autoscaler.Common.{
  int_eq, nat_eq, All-get, All-remove_at, All-set, Eq-cases, Float, List, Option-cases, Result, [],
  ap, arith, delete, eq_of_parts, err, get_elem?, get_elem?-remove_at_ge, get_elem?-remove_at_lt,
  get_elem?-set_ne, get_elem?-set_self, inl, inr, lookup, lookup-delete_ne, lookup-delete_self,
  lookup-map_values-none, lookup-map_values-some, map_values, none, ok, pos, refl, remove_at,
  remove_at-set, set, some, sub64, sub64_parts, sym, ℕ, ℤ, ◌<ℤ◌, ◌∙◌, ◌∷◌, ◌≡◌, ◌≢◌, ◌≤ℤ◌,
}

-- A match that tells an empty list from another.
List-elim {ℓ κ η} :
    {B : Type ℓ} {S : Type κ} (P : S → Type η) (xs : List B) (bare full : S)
    → (xs ≢ [] → P full)
    → (xs ≡ [] → P bare)
    → P (elim xs [ [] ↦ bare | _ ∷ _ ↦ full ])
List-elim P [] bare full more last = last refl
List-elim P (x ∷ xs) bare full more last = more (λ e. ground arith)

module _ {F : Type 0} ⦃f : Float F⦄ where
  -- The shelf that item `id` leaves.
  abbrev pub thinned : Shelf F → ℤ → Item F → Shelf F
  thinned s id item = record s {
    used_width = fsub s.used_width item.width;
    items = delete id s.items;
  }
    where
      open f use {fsub}

  -- What `Remove` finds: the item and its shelf, on a valid packer never a bad index.
  pub record Held (sp : ShelfPacker F) (id : ℤ) : Type 0 where
    pub index : ℕ
    pub shelf : Shelf F
    pub item : Item F
    pub located : lookup id sp.item_location ≡ some index
    pub there : get_elem? sp.shelves index ≡ some shelf
    pub held : lookup id shelf.items ≡ some item

  pub held_lem :
      (sp : ShelfPacker F) (id : ℤ) (i : ℕ)
      → IsValid sp
      → lookup id sp.item_location ≡ some i
      → Held sp id
  held_lem sp id i v e =
      let (item, at) = v.agrees.sound id i e in
      elim (Option-cases (get_elem? sp.shelves i)) [
        | inl n ↦ ground (arith, ap (item_of id) n)
        | inr (s, p) ↦ record {
          index = i;
          shelf = s;
          item = item;
          located = e;
          there = p;
          held = sym (ap (item_of id) p) ∙ at;
        }
      ]

  pub remove_cases {ℓ} :
      (P : ShelfPacker F × Result Error ℕ → Type ℓ) (sp : ShelfPacker F) (id : ℤ)
      → IsValid sp
      → (lookup id sp.item_location ≡ none → P (sp, err id_not_found))
      → ((h : Held sp id) → P (take_out sp id h.index h.shelf h.item, ok h.index))
      → P (remove sp id)
  unfolding remove
  remove_cases P sp id v missing present = elim (Option-cases (lookup id sp.item_location)) [
    | inl e ↦ rw (e, remove) (missing e)
    | inr (i, e) ↦
        let h = held_lem sp id i v e in rw (h.located, remove) (rw h.there (rw h.held (present h)))
  ]

  module _ (sp : ShelfPacker F) (id : ℤ) (v : IsValid sp) (h : Held sp id) where
    abbrev pub left : Shelf F
    left = thinned h.shelf id h.item

    -- The packer without the item, its shelf still there.
    abbrev pub after : ShelfPacker F
    after = record sp {
      shelves = set sp.shelves h.index left;
      item_location = delete id sp.item_location;
    }

    after-others :
        (j : ℕ) (x : ℤ)
        → id ≢ x
        → item_at (set sp.shelves h.index left) j x ≡ item_at sp.shelves j x
    after-others j x ne =
        item_at-set sp.shelves h.index h.shelf left x h.there
          (lookup-delete_ne id x h.shelf.items ne) j

    after-gone : (j : ℕ) → item_at (set sp.shelves h.index left) j id ≡ none
    after-gone j = elim (Eq-cases h.index j) [
      | inl same ↦
          rw (← same, get_elem?-set_self sp.shelves h.index left h.shelf h.there)
            (lookup-delete_self id h.shelf.items)
      | inr apart ↦
          rw (get_elem?-set_ne sp.shelves h.index j left apart)
            (at-elsewhere v.agrees id h.index h.located j apart)
    ]

    after-Agrees : Agrees (delete id sp.item_location) (item_at (set sp.shelves h.index left))
    after-Agrees =
        Agrees-delete (item_at (set sp.shelves h.index left)) v.agrees id after-others after-gone

    delete-fresh :
        (x : ℤ) (j : ℕ) → lookup x (delete id sp.item_location) ≡ some j → x <ℤ sp.next_item_id
    delete-fresh x j e = elim (Eq-cases id x) [
      | inl hit ↦ ground (arith, lookup-delete_self id sp.item_location)
      | inr miss ↦ v.fresh x j (sym (lookup-delete_ne id x sp.item_location miss) ∙ e)
    ]

    thinned-holds :
        IsShelf h.shelf
        → (x : ℤ) (it : Item F) → lookup x (delete id h.shelf.items) ≡ some it
        → it.height ≤ℤ h.shelf.height
    thinned-holds k x it e = elim (Eq-cases id x) [
      | inl hit ↦ ground (arith, lookup-delete_self id h.shelf.items)
      | inr miss ↦ k.holds x it (sym (lookup-delete_ne id x h.shelf.items miss) ∙ e)
    ]

    own_ok : IsShelf h.shelf
    own_ok = All-get IsShelf sp.shelves h.index h.shelf v.shelves_ok h.there

    pub after-IsValid : delete id h.shelf.items ≢ [] → IsValid after
    after-IsValid more =
        let same = total-set sp.shelves h.index h.shelf left h.there refl in
        record {
          shelves_ok =
              All-set IsShelf sp.shelves h.index left v.shelves_ok (record {
                positive = own_ok.positive;
                filled = more;
                holds = thinned-holds own_ok;
              });
          used = rw same v.used;
          within = rw same v.within;
          max_range = v.max_range;
          agrees = after-Agrees;
          fresh = delete-fresh;
          next_positive = v.next_positive;
        }

    after-bare : delete id h.shelf.items ≡ [] → (x : ℤ) → item_at after.shelves h.index x ≡ none
    unfolding lookup
    after-bare e x = rw (get_elem?-set_self sp.shelves h.index left h.shelf h.there, e)

    collapsed-Agrees :
        delete id h.shelf.items ≡ []
        → Agrees
            (map_values (lowered h.index) after.item_location)
            (item_at (remove_at after.shelves h.index))
    collapsed-Agrees e =
        Agrees-collapse (item_at (remove_at after.shelves h.index)) after-Agrees h.index
          (after-bare e)
          (λ j x lt. ap (item_of x) (get_elem?-remove_at_lt after.shelves h.index j lt))
          (λ j x ge. ap (item_of x) (get_elem?-remove_at_ge after.shelves h.index j ge))

    collapsed-fresh :
        (x : ℤ) (j : ℕ)
        → lookup x (map_values (lowered h.index) after.item_location) ≡ some j
        → x <ℤ sp.next_item_id
    collapsed-fresh x j e = elim (Option-cases (lookup x after.item_location)) [
      | inl n ↦ ground (arith, lookup-map_values-none (lowered h.index) x after.item_location n)
      | inr (k, p) ↦ delete-fresh x k p
    ]

    pub collapsed-IsValid : delete id h.shelf.items ≡ [] → IsValid (collapse after h.index left)
    unfolding collapse
    collapsed-IsValid e =
        let same = total-set sp.shelves h.index h.shelf left h.there refl in
        let sum =
          total-remove_at after.shelves h.index left
            (get_elem?-set_self sp.shelves h.index left h.shelf h.there) in
        let height = own_ok.positive in
        let used = v.used in
        let below = v.max_range.below in
        let within = v.within in
        let new_total = total_height (remove_at after.shelves h.index) in
        record {
          shelves_ok =
              rw (remove_at-set sp.shelves h.index left)
                (All-remove_at IsShelf sp.shelves h.index v.shelves_ok);
          used = ground (
            arith,
            sub64_parts sp.used_height h.shelf.height,
            eq_of_parts (sub64 sp.used_height h.shelf.height) (pos new_total),
          );
          within = omega arith;
          max_range = v.max_range;
          agrees = collapsed-Agrees e;
          fresh = collapsed-fresh;
          next_positive = v.next_positive;
        }

    pub find-after_self : find after id ≡ none
    find-after_self = ap (found after.shelves id) (lookup-delete_self id sp.item_location)

    pub find-after_ne : (x : ℤ) → id ≢ x → find after x ≡ find sp x
    find-after_ne x ne =
        ap (found after.shelves x) (lookup-delete_ne id x sp.item_location ne)
        ∙ found_congr sp.shelves after.shelves x (λ j. after-others j x ne)
            (lookup x sp.item_location)

    pub find-collapsed :
        delete id h.shelf.items ≡ [] → (x : ℤ) → find (collapse after h.index left) x ≡ find after x
    unfolding collapse
    find-collapsed e x =
        let ss = remove_at after.shelves h.index in
        elim (Option-cases (lookup x after.item_location)) [
          | inl n ↦
              ap (found ss x) (lookup-map_values-none (lowered h.index) x after.item_location n)
              ∙ sym (ap (found after.shelves x) n)
          | inr (k, p) ↦
              let apart : h.index ≢ k =
                λ q. ground (arith, after-bare e x, after-Agrees.sound x k p) in
              ap (found ss x) (lookup-map_values-some (lowered h.index) x k after.item_location p)
              ∙ at-lowered (item_at ss) after-Agrees h.index
                  (λ j y lt. ap (item_of y) (get_elem?-remove_at_lt after.shelves h.index j lt))
                  (λ j y ge. ap (item_of y) (get_elem?-remove_at_ge after.shelves h.index j ge)) k x
                  apart
              ∙ sym (ap (found after.shelves x) p)
        ]

    pub take_out_cases {ℓ} :
        (P : ShelfPacker F → Type ℓ)
        → (delete id h.shelf.items ≢ [] → P after)
        → (delete id h.shelf.items ≡ [] → P (collapse after h.index left))
        → P (take_out sp id h.index h.shelf h.item)
    unfolding take_out
    take_out_cases P more last =
        List-elim P (delete id h.shelf.items) (collapse after h.index left) after more last
