-- ===== src/Scale/Decision.antt =====
-- When `UpdateFunction` of internal/controller/fastfunc_scale.go scales down.
use fa_st_gshare_autoscaler.Scale.{
  Reading, counter_after, decide, is_quiet, is_short, scale_down, scale_up, stay,
}
use fa_st_gshare_autoscaler.Common.{
  string_eq, int_eq, Bool-cases, Float, List, [], add64, add64_parts, ap, arith, eq_of_parts, false,
  if◌then◌else◌, inl, inr, ltb, pos, refl, subst, suc, sym, true, zero, ℕ, ℤ, ◌<◌, ◌↔◌, ◌∙◌, ◌∷◌,
  ◌≡◌, ◌⊎◌,
}

module _ {F : Type 0} ⦃f : Float F⦄ where
  -- The latest `n` readings were quiet, and the function was not short at any of them.
  abbrev pub Quiets : ℕ → List (Reading F) → Type 0
  Quiets zero h = Unit
  Quiets (suc n) [] = ⊥
  Quiets (suc n) (r ∷ h) = (is_short r ≡ false) × (is_quiet r ≡ true) × Quiets n h

  decide_up : (r : Reading F) (k : ℤ) → is_short r ≡ true → decide r k ≡ (scale_up, pos 0)
  unfolding decide
  decide_up r k e = rw e refl

  decide_busy :
      (r : Reading F) (k : ℤ) → is_short r ≡ false → is_quiet r ≡ false → decide r k ≡ (stay, pos 0)
  unfolding decide
  decide_busy r k e h = rw e (rw h refl)

  decide_quiet :
      (r : Reading F) (k : ℕ)
      → is_short r ≡ false
      → is_quiet r ≡ true
      → k < 3
      → decide r (pos k) ≡ (if ltb k 2 then (stay, pos (suc k)) else (scale_down, pos 0))
  unfolding decide
  decide_quiet r k e h lt =
      let next : add64 (pos k) (pos 1) ≡ pos (suc k) =
        ground
          (arith, add64_parts (pos k) (pos 1), eq_of_parts (add64 (pos k) (pos 1)) (pos (suc k))) in
      rw e (rw h (rw next (ground arith)))

  -- The counter is 0, 1 or 2 between calls, and counts quiet readings in a row.
  pub counter_lem :
      (h : List (Reading F)) → (k : ℕ) × (counter_after h ≡ pos k) × (k < 3) × Quiets k h
  unfolding counter_after
  counter_lem [] = (0, refl, omega arith, tt)
  counter_lem (r ∷ earlier) =
      let (k, e, lt, q) = counter_lem earlier in
      let now : (decide r (counter_after earlier)).1 ≡ (decide r (pos k)).1 =
        ap (λ x. (decide r x).1) e in
      elim (Bool-cases (is_short r)) [
        | inl up ↦ (0, now ∙ ap (λ x. x.1) (decide_up r (pos k) up), omega arith, tt)
        | inr fine ↦ elim (Bool-cases (is_quiet r)) [
          | inr busy ↦ (0, now ∙ ap (λ x. x.1) (decide_busy r (pos k) fine busy), omega arith, tt)
          | inl quiet ↦
              let step = decide_quiet r k fine quiet lt in
              elim (Bool-cases (ltb k 2)) [
                | inl low ↦
                    (suc k, now ∙ ap (λ x. x.1) (rw low at step), ground arith, (fine, quiet, q))
                | inr top ↦ (0, now ∙ ap (λ x. x.1) (rw top at step), omega arith, tt)
              ]
        ]
      ]

  decided :
      (r : Reading F) (k : ℕ)
      → k < 3
      → (decide r (pos k)).0 ≡ scale_down
      → (k ≡ 2) × (is_short r ≡ false) × (is_quiet r ≡ true)
  decided r k lt e = elim (Bool-cases (is_short r)) [
    | inl up ↦ absurd (different (ap (λ x. x.0) (sym (decide_up r (pos k) up)) ∙ e))
    | inr fine ↦ elim (Bool-cases (is_quiet r)) [
      | inr busy ↦ absurd (different' (ap (λ x. x.0) (sym (decide_busy r (pos k) fine busy)) ∙ e))
      | inl quiet ↦ (ground (arith, decide_quiet r k fine quiet lt), fine, quiet)
    ]
  ]
    where
      different : scale_up ≡ scale_down → ⊥
      different q = cc

      different' : stay ≡ scale_down → ⊥
      different' q = cc

  -- After any sequence of calls on a function, UpdateFunction decides to scale down exactly if
  -- the counter stands at two and at none of the last three readings was the function short and
  -- all three were quiet; the counter is 0, 1 or 2 between calls.
  pub decide-Quiets :
      (r : Reading F) (earlier : List (Reading F))
      → (((decide r (counter_after earlier)).0 ≡ scale_down)
          ↔ ((counter_after earlier ≡ pos 2) × Quiets 3 (r ∷ earlier)))
        × ((k : ℕ) × (counter_after earlier ≡ pos k) × (k < 3))
  decide-Quiets r earlier =
      let (k, e, lt, q) = counter_lem earlier in
      let same : (decide r (counter_after earlier)).0 ≡ (decide r (pos k)).0 =
        ap (λ x. (decide r x).0) e in
      (
        (
          λ d.
              let (two, fine, quiet) = decided r k lt (sym same ∙ d) in
              (e ∙ ap pos two, (fine, quiet, subst (λ n. Quiets n earlier) two q)),
          λ h.
              let (at, (fine, quiet, _)) = h in
              ap (λ x. (decide r x).0) at
              ∙ ap (λ x. x.0) (decide_quiet r 2 fine quiet (omega arith)),
        ),
        (k, e, lt),
      )

  -- A quiet reading scales down, or raises the counter from 0 or 1.
  quiet_step :
      (r : Reading F) (h : List (Reading F))
      → is_short r ≡ false
      → is_quiet r ≡ true
      → ((decide r (counter_after h)).0 ≡ scale_down)
        ⊎ ((k : ℕ) × (counter_after h ≡ pos k) × (k < 2) × (counter_after (r ∷ h) ≡ pos (suc k)))
  unfolding counter_after
  quiet_step r h fine quiet =
      let (k, e, lt, q) = counter_lem h in
      let step = decide_quiet r k fine quiet lt in
      let now : decide r (counter_after h) ≡ decide r (pos k) = ap (decide r) e in
      elim (Bool-cases (ltb k 2)) [
        | inl low ↦ inr (k, e, ground arith, ap (λ x. x.1) (now ∙ rw low at step))
        | inr top ↦ inl (ap (λ x. x.0) (now ∙ rw top at step))
      ]

  -- Three quiet readings in a row, at none of which the function is short, scale it down at one
  -- of them at the latest, whatever came before.
  pub Quiets-scale_down :
      (r' r'' r : Reading F) (earlier : List (Reading F))
      → Quiets 3 (r ∷ r'' ∷ r' ∷ earlier)
      → ((decide r' (counter_after earlier)).0 ≡ scale_down)
        ⊎ ((decide r'' (counter_after (r' ∷ earlier))).0 ≡ scale_down)
        ⊎ ((decide r (counter_after (r'' ∷ r' ∷ earlier))).0 ≡ scale_down)
  Quiets-scale_down r' r'' r earlier (fine, quiet, (fine'', quiet'', (fine', quiet', _))) =
      elim (quiet_step r' earlier fine' quiet') [
        | inl d ↦ inl d
        | inr (k, _, _, e) ↦ elim (quiet_step r'' (r' ∷ earlier) fine'' quiet'') [
          | inl d ↦ inr (inl d)
          | inr (k', p', _, e') ↦ elim (quiet_step r (r'' ∷ r' ∷ earlier) fine quiet) [
            | inl d ↦ inr (inr d)
            | inr (k'', p'', lt, _) ↦ absurd (ground (arith, sym e ∙ p', sym e' ∙ p''))
          ]
        ]
      ]
