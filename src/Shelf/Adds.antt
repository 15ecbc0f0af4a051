-- ===== src/Shelf/Adds.antt =====
-- Where `Insert` of internal/shelf/shelf.go puts an item, in an old shelf or in a new one.
use fa_st_gshare_autoscaler.Shelf.Location.{Agrees, Agrees-insert, at-none}
use fa_st_gshare_autoscaler.Shelf.Invariant.{
  find, found, found_congr, item_at, item_at-set, item_of,
}
use fa_st_gshare_autoscaler.Common.{
  int_eq, nat_eq, Bool-cases, Eq-cases, Float, List, Option-cases, [], add64, ap, arith, beq_ne,
  beq_self, get_elem?, get_elem?-append_length, get_elem?-append_ne, get_elem?-length,
  get_elem?-set_ne, get_elem?-set_self, inl, inr, insert, length, lookup, lookup-insert_ne,
  lookup-insert_self, none, refl, set, some, sym, true, ℕ, ℤ, ◌++◌, ◌<ℤ◌, ◌∙◌, ◌∷◌, ◌≡◌, ◌≢◌,
}
use fa_st_gshare_autoscaler.Shelf.{Item, Shelf, ShelfPacker, place, put, takes}

module _ {F : Type 0} ⦃f : Float F⦄ where
  -- What first fit finds.
  pub record Placed (item : Item F) (ss : List (Shelf F)) (i : ℕ) (ss' : List (Shelf F))
      : Type 0 where
    pub shelf : Shelf F
    pub there : get_elem? ss i ≡ some shelf
    pub room : takes item.width item.height shelf ≡ true
    pub result : ss' ≡ set ss i (put item shelf)

  pub place_lem :
      (item : Item F) (ss : List (Shelf F)) (r : ℕ × List (Shelf F))
      → place item ss ≡ some r
      → Placed item ss r.0 r.1
  unfolding place
  place_lem item [] r e = ground arith
  place_lem item (s ∷ ss) r e = elim (Bool-cases (takes item.width item.height s)) [
    | inl fits ↦ record { shelf = s; there = ground arith; room = fits; result = ground arith }
    | inr full ↦ elim (Option-cases (place item ss)) [
      | inl n ↦ ground arith
      | inr (q, p) ↦
          let ih = place_lem item ss q p in
          record {
            shelf = ih.shelf;
            there = ground (arith, ih.there);
            room = ih.room;
            result = ground (arith, ih.result);
          }
    ]
  ]

  -- The places and the index after `item` has been put on a shelf.
  pub record Adds (item : Item F) (sp sp' : ShelfPacker F) : Type 0 where
    pub index : ℕ
    pub location : sp'.item_location ≡ insert item.id index sp.item_location
    pub here : item_at sp'.shelves index item.id ≡ some item
    pub others :
        (j : ℕ) (id : ℤ) → item.id ≢ id → item_at sp'.shelves j id ≡ item_at sp.shelves j id
    pub elsewhere :
        (j : ℕ) → index ≢ j → item_at sp'.shelves j item.id ≡ item_at sp.shelves j item.id

  module _ {sp sp' : ShelfPacker F} {item : Item F} (a : Adds item sp sp') where
    pub Adds-Agrees :
        Agrees sp.item_location (item_at sp.shelves)
        → lookup item.id sp.item_location ≡ none
        → Agrees sp'.item_location (item_at sp'.shelves)
    Adds-Agrees g unknown = rw a.location (
        Agrees-insert (item_at sp'.shelves) g item.id a.index item a.others a.here
          (λ j apart. a.elsewhere j apart ∙ at-none g item.id unknown j))

    pub Adds-fresh :
        (n : ℤ)
        → ((id : ℤ) (j : ℕ) → lookup id sp.item_location ≡ some j → id <ℤ n)
        → item.id <ℤ n
        → (id : ℤ) (j : ℕ) → lookup id sp'.item_location ≡ some j
        → id <ℤ n
    Adds-fresh n old lt id j h =
        let h' : lookup id (insert item.id a.index sp.item_location) ≡ some j =
          rw a.location at h in
        elim (Eq-cases item.id id) [
          | inl hit ↦ rw hit at lt
          | inr miss ↦
              old id j (sym (lookup-insert_ne item.id id a.index sp.item_location miss) ∙ h')
        ]

    pub find-Adds_self : find sp' item.id ≡ some item
    find-Adds_self =
        ap (found sp'.shelves item.id)
          (ap (lookup item.id) a.location ∙ lookup-insert_self item.id a.index sp.item_location)
        ∙ a.here

    pub find-Adds_ne : (id : ℤ) → item.id ≢ id → find sp' id ≡ find sp id
    find-Adds_ne id ne =
        ap (found sp'.shelves id)
          (ap (lookup id) a.location ∙ lookup-insert_ne item.id id a.index sp.item_location ne)
        ∙ found_congr sp.shelves sp'.shelves id (λ j. a.others j id ne) (lookup id sp.item_location)

  abbrev pub own_shelf : Item F → Shelf F
  own_shelf item = record {
    height = item.height;
    used_width = item.width;
    items = (item.id, item) ∷ [];
  }

  -- The two ways in which an item gets its place.
  module _ (sp : ShelfPacker F) (item : Item F) where
    abbrev pub placed : ℕ → List (Shelf F) → ShelfPacker F
    placed i ss' = record sp { shelves = ss'; item_location = insert item.id i sp.item_location }

    pub placed-Adds :
        (i : ℕ) (ss' : List (Shelf F)) → Placed item sp.shelves i ss' → Adds item sp (placed i ss')
    unfolding put
    placed-Adds i ss' p =
        let t = put item p.shelf in
        let at_self = get_elem?-set_self sp.shelves i t p.shelf p.there in
        record {
          index = i;
          location = refl;
          here = rw (p.result, at_self) (lookup-insert_self item.id item p.shelf.items);
          others = λ j id ne. rw p.result (
              item_at-set sp.shelves i p.shelf t id p.there
                (lookup-insert_ne item.id id item p.shelf.items ne) j);
          elsewhere = λ j apart.
              rw p.result (ap (item_of item.id) (get_elem?-set_ne sp.shelves i j t apart));
        }

    abbrev pub opened : ShelfPacker F
    opened = record sp {
      shelves = sp.shelves ++ (own_shelf item ∷ []);
      used_height = add64 sp.used_height item.height;
      item_location = insert item.id (length sp.shelves) sp.item_location;
    }

    pub opened-Adds : Adds item sp opened
    unfolding lookup
    opened-Adds =
        let at_end = get_elem?-append_length sp.shelves (own_shelf item) in
        record {
          index = length sp.shelves;
          location = refl;
          here = rw (at_end, beq_self item.id);
          others = λ j id ne. elim (Eq-cases (length sp.shelves) j) [
            | inl same ↦ rw (← same, at_end, beq_ne item.id id ne, get_elem?-length sp.shelves)
            | inr apart ↦ ap (item_of id) (get_elem?-append_ne sp.shelves (own_shelf item) j apart)
          ];
          elsewhere = λ j apart.
              ap (item_of item.id) (get_elem?-append_ne sp.shelves (own_shelf item) j apart);
        }
