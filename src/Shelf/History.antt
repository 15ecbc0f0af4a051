-- ===== src/Shelf/History.antt =====
-- Any sequence of calls on a packer of internal/shelf/shelf.go: the states that it can reach, and the map from
-- ids to items for which it stands.
use fa_st_gshare_autoscaler.Shelf.Widths.{HasWidths, insert_rect-HasWidths, remove-HasWidths}
use fa_st_gshare_autoscaler.Shelf.Remove.{Removed, next-remove, remove-IsValid, remove-Removed}
use fa_st_gshare_autoscaler.Shelf.Calls.{
  Inserted, insert_rect-Inserted, insert_rect-IsValid, new_item, next-insert_rect,
}
use fa_st_gshare_autoscaler.Shelf.Invariant.{
  IsValid, find, find_congr, new_shelf-IsValid, reset-IsValid,
}
use fa_st_gshare_autoscaler.Shelf.{
  Error, Item, ShelfPacker, id_not_found, insert_rect, new_shelf, remove, reset,
}
use fa_st_gshare_autoscaler.Common.{
  int_eq, Float, InRange, IsOrdered, List, Option, Result, [], ap, arith, err, length, none, ok,
  pos_part, refl, some, suc, sym, ℕ, ℤ, ◌+◌, ◌<◌, ◌^◌, ◌∙◌, ◌∷◌, ◌≡◌, ◌≢◌, ◌≼◌,
}

-- A call that changes the packer.
pub data Call (F : Type 0) : Type 0 where
  inserting : F → ℤ → Call F
  removing : ℤ → Call F

-- What the caller is told: the id of `Insert`, the index of `Remove`, or an error.
pub data Reply : Type 0 where
  inserted : Result Error ℤ → Reply
  removed : Result Error ℕ → Reply

-- What the packer promises: a partial map from ids to items.
abbrev pub Items : Type 0 → Type 0
Items F = ℤ → Option (Item F)

module _ {F : Type 0} ⦃f : Float F⦄ where
  abbrev pub answer : Call F → ShelfPacker F → ShelfPacker F × Reply
  answer (inserting width height) sp =
      let (sp', r) = insert_rect sp width height in (sp', inserted r)
  answer (removing id) sp = let (sp', r) = remove sp id in (sp', removed r)

  -- The states that calls reach from a new packer: `Insert` while ids are left, of a width that is a
  -- number, `Remove` of any id, and `Reset`.
  pub data Reach (max_height : ℤ) : ShelfPacker F → Type 0 where
    made : Reach max_height (new_shelf max_height)
    insertion :
        (sp : ShelfPacker F) (width : F) (height : ℤ)
        → Reach max_height sp
        → width ≼ width
        → pos_part sp.next_item_id + 1 < 2 ^ 63
        → Reach max_height (insert_rect sp width height).0
    removal :
        (sp : ShelfPacker F) (id : ℤ) → Reach max_height sp → Reach max_height (remove sp id).0
    clearing : (sp : ShelfPacker F) → Reach max_height sp → Reach max_height (reset sp)

  new_shelf-HasWidths : (h : ℤ) (sp : ShelfPacker F) → sp ≡ new_shelf h → HasWidths sp
  unfolding new_shelf
  new_shelf-HasWidths h sp e = rw e tt

  reset-HasWidths : (sp : ShelfPacker F) → HasWidths (reset sp)
  unfolding reset
  reset-HasWidths sp = tt

  -- Whatever calls of Insert, Remove and Reset are made on a new packer whose height is an
  -- int64, in whatever order, the packer is valid and no shelf is filled beyond its width of 1,
  -- as long as each width inserted is a number, not NaN, and ids are left at each Insert. The
  -- order of float64 is assumed as IEEE 754 has it.
  pub Reach-IsValid :
      (o : IsOrdered F) (h : ℤ) (sp : ShelfPacker F)
      → InRange h
      → Reach h sp
      → IsValid sp × HasWidths sp
  Reach-IsValid o h sp range made =
      (new_shelf-IsValid h range, new_shelf-HasWidths h (new_shelf h) refl)
  Reach-IsValid o h sp range (insertion t width height r number left) =
      let (v, w) = Reach-IsValid o h t range r in
      (insert_rect-IsValid t width height v left, insert_rect-HasWidths o t width height number w)
  Reach-IsValid o h sp range (removal t id r) =
      let (v, w) = Reach-IsValid o h t range r in
      (remove-IsValid t id v, remove-HasWidths o t id v w)
  Reach-IsValid o h sp range (clearing t r) =
      let (v, w) = Reach-IsValid o h t range r in (reset-IsValid t v.max_range, reset-HasWidths t)

  -- One call on the map: a successful `Insert` binds an id that was free to an item of that size, a
  -- successful `Remove` frees an id that was bound, an error of `Remove` says that the id was free, and an error
  -- changes nothing. All other ids keep their items.
  abbrev pub Behaves : Items F → Call F → Reply → Items F → Type 0
  Behaves m (inserting width height) (inserted (ok id)) m' =
      (m id ≡ none)
      × (m' id ≡ some (record { id = id; width = width; height = height }))
      × ((j : ℤ) → id ≢ j → m' j ≡ m j)
  Behaves m (inserting width height) (inserted (err e)) m' = (j : ℤ) → m' j ≡ m j
  Behaves m (removing id) (removed (ok i)) m' =
      (m id ≢ none) × (m' id ≡ none) × ((j : ℤ) → id ≢ j → m' j ≡ m j)
  Behaves m (removing id) (removed (err e)) m' =
      (e ≡ id_not_found) × (m id ≡ none) × ((j : ℤ) → m' j ≡ m j)
  Behaves m (inserting width height) (removed r) m' = ⊥
  Behaves m (removing id) (inserted r) m' = ⊥

  Inserted-Behaves :
      (sp : ShelfPacker F) (width : F) (height : ℤ) (q : ShelfPacker F × Result Error ℤ)
      → Inserted sp (new_item sp width height) q
      → Behaves (find sp) (inserting width height) (inserted q.1) (find q.0)
  Inserted-Behaves sp width height (sp', ok id) (own, free, held, kept) = (
    free,
    held ∙ ap (λ i. some (record { id = i; width = width; height = height })) (sym own),
    kept,
  )
  Inserted-Behaves sp width height (sp', err e) (same, index, _) = find_congr sp sp' same index

  Removed-Behaves :
      (sp : ShelfPacker F) (id : ℤ) (q : ShelfPacker F × Result Error ℕ)
      → Removed sp id q
      → Behaves (find sp) (removing id) (removed q.1) (find q.0)
  Removed-Behaves sp id (sp', ok i) (item, _, held, gone, kept) =
      (λ n. ground (arith, sym held ∙ n), gone, kept)
  Removed-Behaves sp id (sp', err e) (same, free, unchanged) =
      (same, free, λ j. ap (λ s. find s j) unchanged)

  answer-Behaves :
      (call : Call F) (sp : ShelfPacker F)
      → IsValid sp
      → Behaves (find sp) call (answer call sp).1 (find (answer call sp).0)
  answer-Behaves (inserting width height) sp v =
      Inserted-Behaves sp width height (insert_rect sp width height)
        (insert_rect-Inserted sp width height v)
  answer-Behaves (removing id) sp v = Removed-Behaves sp id (remove sp id) (remove-Removed sp id v)

  -- A run of calls: the packer at its end, and the replies.
  abbrev pub run : List (Call F) → ShelfPacker F → ShelfPacker F × List Reply
  run [] sp = (sp, [])
  run (call ∷ calls) sp =
      let (sp', reply) = answer call sp in
      let (end, replies) = run calls sp' in (end, reply ∷ replies)

  -- A run on maps, with the same replies.
  abbrev pub Runs : Items F → List (Call F) → List Reply → Items F → Type 0
  Runs m [] [] m' = (j : ℤ) → m' j ≡ m j
  Runs m (call ∷ calls) (reply ∷ replies) m' =
      (n : Items F) × Behaves m call reply n × Runs n calls replies m'
  Runs m [] (reply ∷ replies) m' = ⊥
  Runs m (call ∷ calls) [] m' = ⊥

  answer-IsValid :
      (call : Call F) (sp : ShelfPacker F) (n : ℕ)
      → IsValid sp
      → pos_part sp.next_item_id + suc n < 2 ^ 63
      → IsValid (answer call sp).0 × (pos_part (answer call sp).0.next_item_id + n < 2 ^ 63)
  answer-IsValid (inserting width height) sp n v left = (
    insert_rect-IsValid sp width height v (omega arith),
    omega (arith, next-insert_rect sp width height v (omega arith)),
  )
  answer-IsValid (removing id) sp n v left =
      (remove-IsValid sp id v, omega (arith, ap pos_part (next-remove sp id v)))

  -- A packer refines a partial map from ids to items. For every run of Insert and Remove on a
  -- valid packer whose ids suffice for the run, each reply is one that the map allows, and the
  -- run leads to the map for which the packer then stands: a successful Insert binds an id that
  -- was free to an item of the given size, a successful Remove frees an id that was bound, a
  -- failed Remove says that the id is not found and it is indeed free, and no call touches
  -- another id.
  pub run-Runs :
      (calls : List (Call F)) (sp : ShelfPacker F)
      → IsValid sp
      → pos_part sp.next_item_id + length calls < 2 ^ 63
      → Runs (find sp) calls (run calls sp).1 (find (run calls sp).0)
  run-Runs [] sp v left = λ j. refl
  run-Runs (call ∷ calls) sp v left =
      let (v', left') = answer-IsValid call sp (length calls) v left in
      (
        find (answer call sp).0,
        answer-Behaves call sp v,
        run-Runs calls (answer call sp).0 v' left',
      )
