-- ===== src/Profiling/Laws.antt =====
-- The store of internal/profiling/profiling_retrieve.go: Set, Get and the loader.
use fa_st_gshare_autoscaler.Profiling.{
  Parsers, ProfileKey, QpsStore, Row, find_qps, get_qps, improves, key_eq, load_file, load_files,
  load_pair, load_row, load_rows, new_rps_store, parse_row, rounded_key, set_qps, store_qps,
}
use fa_st_gshare_autoscaler.Common.{
  string_eq, int_eq, All, Bool-cases, Float, IsComparable, List, Option, Option-cases, String, [],
  arith, false, if◌then◌else◌, inl, inr, none, not, nought, refl, some, true, ℤ, ◌&&◌, ◌++◌, ◌∷◌,
  ◌≡◌,
}
use text.Mathlib.TextEquality.{eq_iff}

-- No stored number is zero or negative.
abbrev pub IsPositive : {F : Type 0} ⦃f : Float F⦄ → QpsStore F → Type 0
IsPositive ⦃f⦄ s = All (λ e. f.fle e.1 nought ≡ false) s

module _ {F : Type 0} ⦃f : Float F⦄ (c : IsComparable F) where
  open c use {eq_sym, eq_trans, lt_trans, lt_irrefl}

  key_eq_sym : (a b : ProfileKey F) → key_eq a b ≡ true → key_eq b a ≡ true
  unfolding key_eq
  key_eq_sym a b h = ground (
    arith,
    eq_sym a.quota b.quota,
    eq_iff a.model_name b.model_name,
    eq_iff b.model_name a.model_name,
    eq_iff a.gpu_type b.gpu_type,
    eq_iff b.gpu_type a.gpu_type,
  )

  key_eq_trans : (a b d : ProfileKey F) → key_eq a b ≡ true → key_eq b d ≡ true → key_eq a d ≡ true
  unfolding key_eq
  key_eq_trans a b d h k = ground (
    arith,
    eq_trans a.quota b.quota d.quota,
    eq_iff a.model_name b.model_name,
    eq_iff b.model_name d.model_name,
    eq_iff a.model_name d.model_name,
    eq_iff a.gpu_type b.gpu_type,
    eq_iff b.gpu_type d.gpu_type,
    eq_iff a.gpu_type d.gpu_type,
  )

  pub find-store :
      (j k : ProfileKey F) (v : F) (s : QpsStore F)
      → find_qps k (store_qps j v s) ≡ (if key_eq j k then some v else find_qps k s)
  unfolding find_qps store_qps
  find-store j k v [] = refl
  find-store j k v ((i, w) ∷ s) = ground (
    arith,
    find-store j k v s,
    key_eq_sym i j,
    key_eq_trans j i k,
    key_eq_trans i j k,
    key_eq_sym j k,
    key_eq_trans i k j,
  )

  -- Get after Set gives the new number, if it is accepted and `==` finds its key, and what Get
  -- gave before for every other key; a number that is zero or negative changes nothing. The laws
  -- of IEEE 754 for `==` and `<` are assumed.
  pub get-set :
      (s : QpsStore F) (model gpu : String) (sm : ℤ) (quota qps : F) (model' gpu' : String)
      (sm' : ℤ) (quota' : F)
      → get_qps (set_qps s model gpu sm quota qps).0 model' gpu' sm' quota' ≡ (
          if not (f.fle qps nought)
            && key_eq (rounded_key model gpu sm quota) (rounded_key model' gpu' sm' quota')
          then some qps
          else get_qps s model' gpu' sm' quota')
  unfolding get_qps set_qps
  get-set s model gpu sm quota qps model' gpu' sm' quota' =
      let k = rounded_key model gpu sm quota in
      let k' = rounded_key model' gpu' sm' quota' in
      elim (Bool-cases (f.fle qps nought)) [
        | inl low ↦ rw low
        | inr fine ↦ rw fine (
            rw (find-store k k' qps s)
              (elim (Bool-cases (key_eq k k')) [ inl hit ↦ rw hit (rw fine) | inr miss ↦ rw miss ]))
      ]

  store-IsPositive :
      (k : ProfileKey F) (v : F) (s : QpsStore F)
      → f.fle v nought ≡ false
      → IsPositive s
      → IsPositive (store_qps k v s)
  unfolding store_qps
  store-IsPositive k v [] h p = (h, tt)
  store-IsPositive k v ((j, w) ∷ s) h p = ground (arith, store-IsPositive k v s)

  -- If no number of the store is zero or negative, none is after Set, whatever is set. The laws
  -- of IEEE 754 for `==` and `<` are assumed.
  set-IsPositive :
      (s : QpsStore F) (model gpu : String) (sm : ℤ) (quota qps : F)
      → IsPositive s
      → IsPositive (set_qps s model gpu sm quota qps).0
  unfolding set_qps
  set-IsPositive s model gpu sm quota qps p =
      ground (arith, store-IsPositive (rounded_key model gpu sm quota) qps s)

  load_pair-IsPositive :
      (r : ProfileKey F × F) (s : QpsStore F) → IsPositive s → IsPositive (load_pair r s)
  unfolding load_pair
  load_pair-IsPositive (k, q) s h = ground (arith, store-IsPositive k q s)

  load_row-IsPositive :
      (p : Parsers F) (row : Row) (s : QpsStore F) → IsPositive s → IsPositive (load_row p row s)
  unfolding load_row
  load_row-IsPositive p row s h = elim (Option-cases (parse_row p row)) [
    | inl n ↦ rw (n, load_row) h
    | inr (r, e) ↦ rw (e, load_row) (load_pair-IsPositive r s h)
  ]

  load_rows-IsPositive :
      (p : Parsers F) (rows : List Row) (s : QpsStore F)
      → IsPositive s
      → IsPositive (load_rows p rows s)
  unfolding load_rows
  load_rows-IsPositive p [] s h = h
  load_rows-IsPositive p (row ∷ rows) s h =
      load_rows-IsPositive p rows (load_row p row s) (load_row-IsPositive p row s h)

  load_files-IsPositive :
      (p : Parsers F) (files : List (Option (List Row))) (s : QpsStore F)
      → IsPositive s
      → IsPositive (load_files p files s)
  unfolding load_files load_file
  load_files-IsPositive p [] s h = h
  load_files-IsPositive p (none ∷ rest) s h = load_files-IsPositive p rest s h
  load_files-IsPositive p (some [] ∷ rest) s h = load_files-IsPositive p rest s h
  load_files-IsPositive p (some (header ∷ rows) ∷ rest) s h =
      load_files-IsPositive p rest (load_rows p rows s) (load_rows-IsPositive p rows s h)

  -- Whatever the embedded files hold, the loaded store holds no number that is zero or negative.
  -- The laws of IEEE 754 for `==` and `<` are assumed.
  new_rps_store-IsPositive :
      (p : Parsers F) (files : List (Option (List Row))) → IsPositive (new_rps_store p files)
  unfolding new_rps_store
  new_rps_store-IsPositive p files = load_files-IsPositive p files [] tt

  -- A number for the key at least as good as `q`.
  abbrev pub Covers : QpsStore F → ProfileKey F → F → Type 0
  Covers s k q = (v : F) × (find_qps k s ≡ some v) × (f.flt v q ≡ false)

  find-congr :
      (j k : ProfileKey F) (s : QpsStore F) → key_eq j k ≡ true → find_qps j s ≡ find_qps k s
  unfolding find_qps
  find-congr j k [] h = refl
  find-congr j k ((i, w) ∷ s) h =
      ground (arith, find-congr j k s h, key_eq_trans i j k, key_eq_trans i k j, key_eq_sym j k)

  load_pair-Covers :
      (j k : ProfileKey F) (r q : F) (s : QpsStore F)
      → Covers s k q
      → Covers (load_pair (j, r) s) k q
  unfolding load_pair
  load_pair-Covers j k r q s (v, e, le) = elim (Bool-cases (f.fle r nought)) [
    | inl low ↦ rw low (v, e, le)
    | inr fine ↦ elim (Bool-cases (improves r (find_qps j s))) [
      | inr old ↦ rw fine (rw old (v, e, le))
      | inl new ↦ rw fine (
          rw new (elim (Bool-cases (key_eq j k)) [
            | inr other ↦ (v, ground (arith, find-store j k r s), le)
            | inl same ↦ (
              r,
              ground (arith, find-store j k r s),
              ground (arith, find-congr j k s same, lt_trans v r q),
            )
          ]))
    ]
  ]

  load_pair-Covers_self :
      (k : ProfileKey F) (q : F) (s : QpsStore F)
      → f.fle q nought ≡ false
      → key_eq k k ≡ true
      → Covers (load_pair (k, q) s) k q
  unfolding load_pair
  load_pair-Covers_self k q s fine self = rw fine (elim (Option-cases (find_qps k s)) [
    | inl n ↦ rw n (q, ground (arith, find-store k k q s), lt_irrefl q)
    | inr (v, e) ↦ rw e (elim (Bool-cases (f.flt v q)) [
      | inl better ↦ rw better (q, ground (arith, find-store k k q s), lt_irrefl q)
      | inr worse ↦ rw worse (v, e, worse)
    ])
  ])

  load_row-Covers :
      (p : Parsers F) (row : Row) (k : ProfileKey F) (q : F) (s : QpsStore F)
      → Covers s k q
      → Covers (load_row p row s) k q
  unfolding load_row
  load_row-Covers p row k q s h = elim (Option-cases (parse_row p row)) [
    | inl n ↦ rw (n, load_row) h
    | inr (r, e) ↦ rw (e, load_row) (load_pair-Covers r.0 k r.1 q s h)
  ]

  load_rows-Covers :
      (p : Parsers F) (rows : List Row) (k : ProfileKey F) (q : F) (s : QpsStore F)
      → Covers s k q
      → Covers (load_rows p rows s) k q
  unfolding load_rows
  load_rows-Covers p [] k q s h = h
  load_rows-Covers p (row ∷ rows) k q s h =
      load_rows-Covers p rows k q (load_row p row s) (load_row-Covers p row k q s h)

  -- The loader keeps the best: if a row of a file parses, its number is not zero or negative and
  -- its key `==` itself, then the file loaded leaves for that key a number that is not less. The
  -- laws of IEEE 754 for `==` and `<` are assumed.
  pub load_rows-Covers_row :
      (p : Parsers F) (before after : List Row) (row : Row) (k : ProfileKey F) (q : F)
      (s : QpsStore F)
      → parse_row p row ≡ some (k, q)
      → f.fle q nought ≡ false
      → key_eq k k ≡ true
      → Covers (load_rows p (before ++ row ∷ after) s) k q
  unfolding load_rows load_row
  load_rows-Covers_row p [] after row k q s e fine self =
      load_rows-Covers p after k q (load_row p row s)
        (rw (e, load_row) (load_pair-Covers_self k q s fine self))
  load_rows-Covers_row p (x ∷ before) after row k q s e fine self =
      load_rows-Covers_row p before after row k q (load_row p x s) e fine self
