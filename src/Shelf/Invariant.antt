-- ===== src/Shelf/Invariant.antt =====
-- What holds of a packer of internal/shelf/shelf.go between two calls.
use fa_st_gshare_autoscaler.Common.{
  int_eq, nat_eq, All, Eq-cases, Float, GoMap, InRange, List, Option, [], ap, arith, get_elem?,
  get_elem?-set_ne, get_elem?-set_self, inl, inr, lookup, none, pos, pos_part, refl, remove_at, set,
  some, suc, zero, ℕ, ℤ, ◌++◌, ◌+◌, ◌<ℤ◌, ◌∙◌, ◌∷◌, ◌≡◌, ◌≢◌, ◌≤ℤ◌, ◌≤◌,
}
use fa_st_gshare_autoscaler.Shelf.Location.{Agrees, Places}
use fa_st_gshare_autoscaler.Shelf.{Item, Shelf, ShelfPacker, new_shelf, reset}

module _ {F : Type 0} where
  -- The sum of the shelves' heights.
  abbrev pub total_height : List (Shelf F) → ℕ
  total_height [] = 0
  total_height (s ∷ ss) = pos_part s.height + total_height ss

  -- A shelf is of positive height, holds an item, and is as high as each of its items.
  pub record IsShelf (s : Shelf F) : Type 0 where
    pub positive : pos 0 <ℤ s.height
    pub filled : s.items ≢ []
    pub holds : (id : ℤ) (it : Item F) → lookup id s.items ≡ some it → it.height ≤ℤ s.height

  abbrev pub item_of : ℤ → Option (Shelf F) → Option (Item F)
  item_of id none = none
  item_of id (some s) = lookup id s.items

  -- The item with that id on the shelf with that index.
  abbrev pub item_at : List (Shelf F) → Places (Item F)
  item_at ss i id = item_of id (get_elem? ss i)

  pub record IsValid (sp : ShelfPacker F) : Type 0 where
    pub shelves_ok : All IsShelf sp.shelves
    pub used : sp.used_height ≡ pos (total_height sp.shelves)
    pub within : total_height sp.shelves ≤ pos_part sp.max_height
    pub max_range : InRange sp.max_height
    pub agrees : Agrees sp.item_location (item_at sp.shelves)
    pub fresh : (id : ℤ) (i : ℕ) → lookup id sp.item_location ≡ some i → id <ℤ sp.next_item_id
    pub next_positive : pos 0 <ℤ sp.next_item_id

  abbrev pub found : List (Shelf F) → ℤ → Option ℕ → Option (Item F)
  found ss id none = none
  found ss id (some i) = item_at ss i id

  -- The item with that id: the map from ids to items that the packer stands for.
  abbrev pub find : ShelfPacker F → ℤ → Option (Item F)
  find sp id = found sp.shelves id (lookup id sp.item_location)

  pub found_congr :
      (ss ss' : List (Shelf F)) (id : ℤ)
      → ((j : ℕ) → item_at ss' j id ≡ item_at ss j id)
      → (o : Option ℕ) → found ss' id o ≡ found ss id o
  found_congr ss ss' id same none = refl
  found_congr ss ss' id same (some j) = same j

  pub find_congr :
      (sp sp' : ShelfPacker F)
      → sp'.shelves ≡ sp.shelves
      → sp'.item_location ≡ sp.item_location
      → (id : ℤ) → find sp' id ≡ find sp id
  find_congr sp sp' e h id =
      ap (λ (ss : List (Shelf F)). found ss id (lookup id sp'.item_location)) e
      ∙ ap (λ (m : GoMap ℤ ℕ). found sp.shelves id (lookup id m)) h

  pub total-append :
      (ss : List (Shelf F)) (s : Shelf F)
      → total_height (ss ++ (s ∷ [])) ≡ total_height ss + pos_part s.height
  total-append [] s = omega arith
  total-append (x ∷ ss) s = omega (arith, total-append ss s)

  pub total-set :
      (ss : List (Shelf F)) (i : ℕ) (s t : Shelf F)
      → get_elem? ss i ≡ some s
      → t.height ≡ s.height
      → total_height (set ss i t) ≡ total_height ss
  total-set [] i s t e h = ground arith
  total-set (x ∷ ss) zero s t e h = ground arith
  total-set (x ∷ ss) (suc i) s t e h = omega (arith, total-set ss i s t e h)

  pub total-remove_at :
      (ss : List (Shelf F)) (i : ℕ) (s : Shelf F)
      → get_elem? ss i ≡ some s
      → total_height (remove_at ss i) + pos_part s.height ≡ total_height ss
  total-remove_at [] i s e = ground arith
  total-remove_at (x ∷ ss) zero s e = ground arith
  total-remove_at (x ∷ ss) (suc i) s e = omega (arith, total-remove_at ss i s e)

  -- A shelf is replaced by one that agrees with it on an id.
  pub item_at-set :
      (ss : List (Shelf F)) (i : ℕ) (s t : Shelf F) (id : ℤ)
      → get_elem? ss i ≡ some s
      → lookup id t.items ≡ lookup id s.items
      → (j : ℕ) → item_at (set ss i t) j id ≡ item_at ss j id
  item_at-set ss i s t id e h j = elim (Eq-cases i j) [
    | inl same ↦ rw (← same, get_elem?-set_self ss i t s e, e) h
    | inr apart ↦ ap (item_of id) (get_elem?-set_ne ss i j t apart)
  ]

module _ {F : Type 0} ⦃f : Float F⦄ where
  -- A new packer is valid.
  pub new_shelf-IsValid : (h : ℤ) → InRange h → IsValid {F = F} (new_shelf h)
  unfolding new_shelf lookup
  new_shelf-IsValid h r = record {
    shelves_ok = tt;
    used = refl;
    within = omega arith;
    max_range = r;
    agrees = record { sound = λ id i e. ground arith; complete = λ id i a e. ground arith };
    fresh = λ id i e. ground arith;
    next_positive = omega arith;
  }

  pub reset-IsValid : (sp : ShelfPacker F) → InRange sp.max_height → IsValid (reset sp)
  unfolding reset lookup
  reset-IsValid sp r = record {
    shelves_ok = tt;
    used = refl;
    within = omega arith;
    max_range = r;
    agrees = record { sound = λ id i e. ground arith; complete = λ id i a e. ground arith };
    fresh = λ id i e. ground arith;
    next_positive = omega arith;
  }
