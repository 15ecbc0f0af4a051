-- ===== src/Release/Retries.antt =====
-- The retries of the worker of internal/controller/fastfunc_controller.go.
use fa_st_gshare_autoscaler.Release.{
  NamespacedName, Outcome, Releaser, WorkItem, Worker, item_key, node_not_found, process_item,
  release_failed, released, requeue, run_worker, work,
}
use fa_st_gshare_autoscaler.Common.{
  string_eq, int_eq, All, Bool, Bool-cases, GoMap, List, Option-cases, String, [], add64_parts,
  arith, delete, inl, inr, insert, lookup, ltb_ℤ, one_sign, pos, pos_part, refl, suc, true, zero, ℕ,
  ℤ, ◌++◌, ◌+◌, ◌-◌, ◌<◌, ◌∷◌, ◌≡◌, ◌≤ℤ◌, ◌≤◌, ◌⊎◌,
}

-- The turns that an item can still cause.
abbrev pub turns : WorkItem → ℕ
turns item = 1 + (11 - pos_part item.retry_count)

abbrev pub total_turns : List WorkItem → ℕ
total_turns [] = 0
total_turns (item ∷ rest) = turns item + total_turns rest

abbrev pub IsCounted : WorkItem → Type 0
IsCounted item = pos 0 ≤ℤ item.retry_count

total-append : (xs ys : List WorkItem) → total_turns (xs ++ ys) ≡ total_turns xs + total_turns ys
total-append [] ys = omega arith
total-append (x ∷ xs) ys = omega (arith, total-append xs ys)

IsCounted-append :
    (xs ys : List WorkItem) → All IsCounted xs → All IsCounted ys → All IsCounted (xs ++ ys)
IsCounted-append [] ys h k = k
IsCounted-append (x ∷ xs) ys (h, hs) k = (h, IsCounted-append xs ys hs k)

-- An item that is added again has fewer turns left.
requeue_lem :
    (show : NamespacedName → String) (now : ℤ) (item : WorkItem) (processing : GoMap String Bool)
    (o : Outcome)
    → IsCounted item
    → All IsCounted (requeue show now item processing o)
      × (total_turns (requeue show now item processing o) < turns item)
unfolding requeue
requeue_lem show now item processing released h = (tt, omega arith)
requeue_lem show now item processing node_not_found h = (tt, omega arith)
requeue_lem show now item processing release_failed h =
    elim (Bool-cases (ltb_ℤ (pos 10) item.retry_count)) [
      | inl many ↦ rw many (tt, omega arith)
      | inr few ↦ elim (Option-cases (lookup (item_key show item) processing)) [
        | inr (b, e) ↦ rw (few, e) (tt, omega arith)
        | inl e ↦
            let next = add64_parts item.retry_count (pos 1) in
            let sign = one_sign item.retry_count in
            rw (few, e) ((ground (arith, next), tt), ground (arith, next))
      ]
    ]

empty_of_no_turns : (q : List WorkItem) → total_turns q ≤ 0 → q ≡ []
empty_of_no_turns [] h = refl
empty_of_no_turns (x ∷ q) h = ground arith

queue_cases :
    (q : List WorkItem)
    → (q ≡ []) ⊎ ((item : WorkItem) × (rest : List WorkItem) × (q ≡ item ∷ rest))
queue_cases [] = inl refl
queue_cases (x ∷ q) = inr (x, q, refl)

module _ {C V : Type 0} where
  work_lem :
      (show : NamespacedName → String) (release : Releaser C V) (now : ℤ) (item : WorkItem)
      (w : Worker C V)
      → All IsCounted (item ∷ w.queue)
      → All IsCounted (work show release now item w).queue
        × (total_turns (work show release now item w).queue < total_turns (item ∷ w.queue))
  unfolding work
  work_lem show release now item w (h, hs) =
      let key = item_key show item in
      let o = (process_item release item w.manager).1 in
      let processing = delete key (insert key true w.processing) in
      let (counted, fewer) = requeue_lem show now item processing o h in
      (
        IsCounted-append w.queue _ hs counted,
        omega (arith, total-append w.queue (requeue show now item processing o), fewer),
      )

  -- The release worker empties its queue, whatever the servers answer, if no retry count is
  -- negative, in as many turns as the items have left, which is twelve for an item that was
  -- never tried: no release is retried for ever.
  pub run_worker-empty :
      (show : NamespacedName → String) (release : ℕ → Releaser C V) (clock : ℕ → ℤ) (fuel : ℕ)
      (w : Worker C V)
      → All IsCounted w.queue
      → total_turns w.queue ≤ fuel
      → (run_worker show release clock fuel w).queue ≡ []
  unfolding run_worker
  run_worker-empty show release clock zero w h enough = ground (arith, empty_of_no_turns w.queue)
  run_worker-empty show release clock (suc fuel) w h enough = elim (queue_cases w.queue) [
    | inl e ↦ rw (e, run_worker) e
    | inr (item, rest, e) ↦
        let turn = work show (release fuel) (clock fuel) item (record w { queue = rest }) in
        let next =
          work_lem show (release fuel) (clock fuel) item (record w { queue = rest }) (rw e at h) in
        let fewer : total_turns turn.queue ≤ fuel = omega (arith, next.1, rw e at enough) in
        rw (e, run_worker) (run_worker-empty show release clock fuel turn next.0 fewer)
  ]
