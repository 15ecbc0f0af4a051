-- ===== src/Shelf/Widths.antt =====
-- The widths of the shelves of internal/shelf/shelf.go, which stand for shares of a GPU's time.
use fa_st_gshare_autoscaler.Shelf.Calls.{bumped, new_item}
use fa_st_gshare_autoscaler.Shelf.Invariant.{IsValid}
use fa_st_gshare_autoscaler.Shelf.TakeOut.{after, remove_cases, take_out_cases, thinned}
use fa_st_gshare_autoscaler.Shelf.Adds.{own_shelf}
use fa_st_gshare_autoscaler.Shelf.Insert.{insert_item_cases}
use fa_st_gshare_autoscaler.Shelf.{
  Item, Shelf, ShelfPacker, bad_size, collapse, insert_rect, put, remove, takes,
}
use fa_st_gshare_autoscaler.Common.{
  int_eq, nat_eq, All, All-append, All-get, All-remove_at, All-set, Eq-cases, Float, IsOrdered,
  Option-cases, [], arith, delete, inl, inr, insert, lookup, lookup-delete_ne, lookup-delete_self,
  lookup-insert_ne, lookup-insert_self, none, nought, one, some, subst, sym, true, ℤ, ◌∙◌, ◌∷◌, ◌≡◌,
  ◌≼◌,
}

module _ {F : Type 0} ⦃f : Float F⦄ where
  -- An item is of positive width, at most 1.
  abbrev pub IsNarrow : Item F → Type 0
  IsNarrow it = (f.flt nought it.width ≡ true) × (it.width ≼ one)

  -- The widths on a shelf add up to 1 at most, in the arithmetic of the program.
  pub record IsFilled (s : Shelf F) : Type 0 where
    pub bounded : s.used_width ≼ one
    pub narrow : (id : ℤ) (it : Item F) → lookup id s.items ≡ some it → IsNarrow it

  -- No shelf of the packer is filled beyond its width.
  abbrev pub HasWidths : ShelfPacker F → Type 0
  HasWidths sp = All IsFilled sp.shelves

  put-IsFilled :
      (item : Item F) (s : Shelf F)
      → IsNarrow item
      → takes item.width item.height s ≡ true
      → IsFilled s
      → IsFilled (put item s)
  unfolding put
  put-IsFilled item s n room k = record {
    bounded = ground arith;
    narrow = λ id it e. elim (Eq-cases item.id id) [
      | inl hit ↦ ground (
        arith,
        subst (λ y. lookup y (insert item.id item s.items) ≡ some item) hit
            (lookup-insert_self item.id item s.items),
      )
      | inr miss ↦ k.narrow id it (sym (lookup-insert_ne item.id id item s.items miss) ∙ e)
    ];
  }

  own_shelf-IsFilled : (item : Item F) → IsNarrow item → IsFilled (own_shelf item)
  unfolding lookup
  own_shelf-IsFilled item n = record { bounded = n.1; narrow = λ id it e. ground arith }

  module _ (o : IsOrdered F) where
    open o use {lt_of_not_le, le_of_not_lt, sub_le}

    -- A size that `Insert` accepts is a width in (0, 1], unless it is NaN.
    accepted-IsNarrow :
        (width : F) (height : ℤ) (sp : ShelfPacker F)
        → width ≼ width
        → bad_size width height sp ≡ none
        → (f.flt nought width ≡ true) × (width ≼ one)
    unfolding bad_size
    accepted-IsNarrow width height sp number e = ground (
      arith,
      lt_of_not_le width nought number (o.decimal_refl 0 0),
      le_of_not_lt width one number (o.decimal_refl 1 0),
    )

    -- `Insert` of a width that is a number, whether it succeeds or fails, fills no shelf beyond its width.
    pub insert_rect-HasWidths :
        (sp : ShelfPacker F) (width : F) (height : ℤ)
        → width ≼ width
        → HasWidths sp
        → HasWidths (insert_rect sp width height).0
    unfolding insert_rect
    insert_rect-HasWidths sp width height number h =
        elim (Option-cases (bad_size width height sp)) [
          | inr (e, bad) ↦ rw (bad, insert_rect) h
          | inl fine ↦
              let item = new_item sp width height in
              let n = accepted-IsNarrow width height sp number fine in
              rw (fine, insert_rect)
                (insert_item_cases (λ r. HasWidths r.0) (bumped sp) item
                  (λ i ss' p. rw p.result (
                    All-set IsFilled sp.shelves i (put item p.shelf) h (
                      put-IsFilled item p.shelf n p.room
                        (All-get IsFilled sp.shelves i p.shelf h p.there))))
                  (λ m room.
                    All-append IsFilled sp.shelves (own_shelf item ∷ []) h
                      (own_shelf-IsFilled item n, tt))
                  (λ m tight. h))
        ]

    thinned-IsFilled :
        (s : Shelf F) (id : ℤ) (item : Item F)
        → lookup id s.items ≡ some item
        → IsFilled s
        → IsFilled (thinned s id item)
    thinned-IsFilled s id item e k =
        let (positive, small) = k.narrow id item e in
        record {
          bounded = sub_le s.used_width one item.width k.bounded positive small;
          narrow = λ x it p. elim (Eq-cases id x) [
            | inl hit ↦ ground (
              arith,
              subst (λ y. lookup y (delete id s.items) ≡ none) hit (lookup-delete_self id s.items),
            )
            | inr miss ↦ k.narrow x it (sym (lookup-delete_ne id x s.items miss) ∙ p)
          ];
        }

    -- `Remove` on a valid packer fills no shelf beyond its width.
    pub remove-HasWidths :
        (sp : ShelfPacker F) (id : ℤ) → IsValid sp → HasWidths sp → HasWidths (remove sp id).0
    unfolding collapse
    remove-HasWidths sp id v h =
        remove_cases (λ r. HasWidths r.0) sp id v (λ e. h)
          (λ k.
            let s = All-get IsFilled sp.shelves k.index k.shelf h k.there in
            let t = thinned-IsFilled k.shelf id k.item k.held s in
            let after_ok = All-set IsFilled sp.shelves k.index (thinned k.shelf id k.item) h t in
            take_out_cases sp id v k HasWidths (λ more. after_ok)
              (λ last. All-remove_at IsFilled (after sp id v k).shelves k.index after_ok))
