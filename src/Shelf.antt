-- ===== src/Shelf.antt =====
-- internal/shelf/shelf.go: online two-dimensional packing by shelves. A slice index is a natural
-- number; heights and item ids are 64-bit integers; widths are float64. The packer's mutex is held
-- for the whole of each call that changes it, so a call is one step from state to state.
use fa_st_gshare_autoscaler.Common.{
  int_eq, Bool, Float, GoMap, List, Option, Result, [], add64, delete, err, false, get_elem?,
  if◌then◌else◌, insert, leb_ℤ, length, lookup, ltb, ltb_ℤ, map_values, mul64, none, nought, ok,
  one, pos, quot64, remove_at, set, some, sub64, suc, true, zero, ℕ, ℤ, ◌&&◌, ◌++◌, ◌-◌, ◌||◌, ◌∷◌,
}
use mathlib.Core.Option
pub mod Location
pub mod Invariant
pub mod Adds
pub mod Insert
pub mod TakeOut
pub mod Remove
pub mod Calls
pub mod Widths
pub mod History

pub record Item (F : Type 0) : Type 0 where
  pub id : ℤ
  pub width : F
  pub height : ℤ

pub record Shelf (F : Type 0) : Type 0 where
  pub height : ℤ
  pub used_width : F
  pub items : GoMap ℤ (Item F)

pub record ShelfPacker (F : Type 0) : Type 0 where
  pub max_height : ℤ
  pub shelves : List (Shelf F)
  pub used_height : ℤ
  pub next_item_id : ℤ
  pub item_location : GoMap ℤ ℕ

-- The errors of `Insert` and `Remove`; `out_of_range` is the panic of a slice index.
pub data Error : Type 0 where
  bad_width bad_height no_space : Error
  id_not_found item_missing out_of_range : Error

-- A method returns the packer after the call and what it returns.
module _ {F : Type 0} ⦃f : Float F⦄ where
  open f use {fadd, fsub, fdiv, fle, flt, to_int}

  unfoldable pub new_shelf : ℤ → ShelfPacker F
  new_shelf max_height = record {
    max_height = max_height;
    shelves = [];
    used_height = pos 0;
    next_item_id = pos 1;
    item_location = [];
  }

  -- The test by which `Insert` and `CanFit` choose a shelf.
  abbrev pub takes : F → ℤ → Shelf F → Bool
  takes width height shelf = leb_ℤ height shelf.height && fle (fadd shelf.used_width width) one

  unfoldable pub put : Item F → Shelf F → Shelf F
  put item shelf = record shelf {
    used_width = fadd shelf.used_width item.width;
    items = insert item.id item shelf.items;
  }

  -- The loop over the existing shelves, first fit: the index chosen and the shelves after it.
  unfoldable pub place : Item F → List (Shelf F) → Option (ℕ × List (Shelf F))
  unfolding put
  place item [] = none
  place item (shelf ∷ rest) =
      if takes item.width item.height shelf
      then some (zero, put item shelf ∷ rest)
      else Option.map (λ r. (suc r.0, shelf ∷ r.1)) (place item rest)

  -- Opens a new shelf for the item, if the height left allows it.
  unfoldable pub open_shelf : ShelfPacker F → Item F → ShelfPacker F × Result Error ℤ
  open_shelf sp item =
      if ltb_ℤ (sub64 sp.max_height sp.used_height) item.height then (sp, err no_space) else (
        record sp {
          shelves = sp.shelves ++ (new ∷ []);
          used_height = add64 sp.used_height item.height;
          item_location = insert item.id (length sp.shelves) sp.item_location;
        },
        ok item.id,
      )
    where
      new : Shelf F
      new = record { height = item.height; used_width = item.width; items = (item.id, item) ∷ [] }

  unfoldable pub insert_item : ShelfPacker F → Item F → ShelfPacker F × Result Error ℤ
  unfolding place open_shelf
  insert_item sp item = elim (place item sp.shelves) [
    | none ↦ open_shelf sp item
    | some r ↦ (
      record sp { shelves = r.1; item_location = insert item.id r.0 sp.item_location },
      ok item.id,
    )
  ]

  unfoldable pub bad_size : F → ℤ → ShelfPacker F → Option Error
  bad_size width height sp =
      if fle width nought || flt one width
      then some bad_width
      else if leb_ℤ height (pos 0) || ltb_ℤ sp.max_height height
      then some bad_height
      else none

  -- `Insert`
  unfoldable pub insert_rect : ShelfPacker F → F → ℤ → ShelfPacker F × Result Error ℤ
  unfolding insert_item bad_size
  insert_rect sp width height = elim (bad_size width height sp) [
    | some e ↦ (sp, err e)
    | none ↦
        insert_item (record sp { next_item_id = add64 sp.next_item_id (pos 1) })
          (record { id = sp.next_item_id; width = width; height = height })
  ]

  unfoldable pub some_takes : F → ℤ → List (Shelf F) → Bool
  some_takes width height [] = false
  some_takes width height (shelf ∷ rest) = takes width height shelf || some_takes width height rest

  -- `CanFit`: `false` comes with an error, which only names the heights.
  unfoldable pub can_fit : ShelfPacker F → F → ℤ → Bool
  unfolding some_takes
  can_fit sp width height =
      some_takes width height sp.shelves || leb_ℤ height (sub64 sp.max_height sp.used_height)

  -- Takes the shelf out, and lowers the indices above its own.
  unfoldable pub collapse : ShelfPacker F → ℕ → Shelf F → ShelfPacker F
  collapse sp idx shelf = record sp {
    used_height = sub64 sp.used_height shelf.height;
    shelves = remove_at sp.shelves idx;
    item_location = map_values (λ j. if ltb idx j then j - 1 else j) sp.item_location;
  }

  unfoldable pub take_out : ShelfPacker F → ℤ → ℕ → Shelf F → Item F → ShelfPacker F
  unfolding collapse
  take_out sp id idx shelf item = elim items [ [] ↦ collapse after idx left | _ ∷ _ ↦ after ]
    where
      items : GoMap ℤ (Item F)
      items = delete id shelf.items

      left : Shelf F
      left = record shelf { used_width = fsub shelf.used_width item.width; items = items }

      after : ShelfPacker F
      after = record sp {
        shelves = set sp.shelves idx left;
        item_location = delete id sp.item_location;
      }

  -- `Remove`: the index that the item's shelf had.
  unfoldable pub remove : ShelfPacker F → ℤ → ShelfPacker F × Result Error ℕ
  unfolding take_out
  remove sp id = elim (lookup id sp.item_location) [
    | none ↦ (sp, err id_not_found)
    | some idx ↦ elim (get_elem? sp.shelves idx) [
      | none ↦ (sp, err out_of_range)
      | some shelf ↦ elim (lookup id shelf.items) [
        | none ↦ (sp, err item_missing)
        | some item ↦ (take_out sp id idx shelf item, ok idx)
      ]
    ]
  ]

  unfoldable pub is_empty : ShelfPacker F → Bool
  is_empty sp = elim sp.shelves [ [] ↦ true | _ ∷ _ ↦ false ]

  -- The loop of `MaxInsertableItems`: the count and the height used so far.
  unfoldable pub count_fits : F → ℤ → List (Shelf F) → ℤ × ℤ → ℤ × ℤ
  count_fits width height [] acc = acc
  count_fits width height (shelf ∷ rest) (count, used) = count_fits width height rest (
    if leb_ℤ height shelf.height
        then add64 count (to_int (fdiv (fsub one shelf.used_width) width))
        else count,
    add64 used shelf.height,
  )

  -- `MaxInsertableItems`
  unfoldable pub max_insertable_items : ShelfPacker F → F → ℤ → ℤ
  unfolding bad_size count_fits
  max_insertable_items sp width height = elim (bad_size width height sp) [
    | some e ↦ pos 0
    | none ↦
        let (count, used) = count_fits width height sp.shelves (pos 0, pos 0) in
        add64 count (mul64 (quot64 (sub64 sp.max_height used) height) (to_int (fdiv one width)))
  ]

  -- `Reset`
  unfoldable pub reset : ShelfPacker F → ShelfPacker F
  reset sp = record sp {
    shelves = [];
    used_height = pos 0;
    next_item_id = pos 1;
    item_location = [];
  }
