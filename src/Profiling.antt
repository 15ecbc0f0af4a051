-- ===== src/Profiling.antt =====
-- internal/profiling/profiling_retrieve.go: the measured requests per second of a model on a kind of
-- GPU, by share of its multiprocessors and of its time. A Go map with a float64 in its key compares
-- keys by `==`, so a key that holds a NaN is never found: the map is a list searched by that test.
use fa_st_gshare_autoscaler.Common.{
  string_eq, int_eq, Bool, Float, List, Option, String, [], add64, false, if◌then◌else◌, mul64,
  none, nought, pos, quot64, some, sub64, true, ℤ, ◌&&◌, ◌==◌, ◌∷◌,
}
use mathlib.Core.Option
pub mod Laws

pub record ProfileKey (F : Type 0) : Type 0 where
  pub model_name : String
  pub gpu_type : String
  pub sm_percentage : ℤ
  pub quota : F

-- `QPSStore`
abbrev pub QpsStore : Type 0 → Type 0
QpsStore F = List (ProfileKey F × F)

-- What the loader calls of strconv: `none` is an error.
pub record Parsers (F : Type 0) : Type 0 where
  pub parse_float : String → Option F
  pub atoi : String → Option ℤ

-- A record of a CSV file with its first five fields, or a shorter one.
abbrev pub Row : Type 0
Row = List String

-- The multiples of `roundBy` round about a percentage; `a % b` is `a - (a / b) * b`.
unfoldable pub bracket : ℤ → ℤ → ℤ × ℤ
bracket sm round_by =
    let lower = mul64 (quot64 sm round_by) round_by in
    (lower, if sub64 sm lower == pos 0 then lower else add64 lower round_by)

module _ {F : Type 0} ⦃f : Float F⦄ where
  open f use {fadd, fmul, fdiv, flt, fle, feq, round, decimal}

  -- `==` on `ProfileKey`
  unfoldable pub key_eq : ProfileKey F → ProfileKey F → Bool
  key_eq a b =
      a.model_name == b.model_name
      && a.gpu_type == b.gpu_type
      && a.sm_percentage == b.sm_percentage
      && feq a.quota b.quota

  unfoldable pub find_qps : ProfileKey F → QpsStore F → Option F
  find_qps key [] = none
  find_qps key ((k, v) ∷ s) = if key_eq k key then some v else find_qps key s

  unfoldable pub store_qps : ProfileKey F → F → QpsStore F → QpsStore F
  store_qps key v [] = (key, v) ∷ []
  store_qps key v ((k, w) ∷ s) =
      let rest = store_qps key v s in if key_eq k key then (k, v) ∷ s else (k, w) ∷ rest

  -- The key of `Set` and `Get`, with the quota rounded to two decimal places.
  unfoldable pub rounded_key : String → String → ℤ → F → ProfileKey F
  rounded_key model gpu sm quota = record {
    model_name = model;
    gpu_type = gpu;
    sm_percentage = sm;
    quota = fdiv (round (fmul quota (decimal 100 0))) (decimal 100 0);
  }

  -- `Set`
  unfoldable pub set_qps : QpsStore F → String → String → ℤ → F → F → QpsStore F × Bool
  unfolding store_qps rounded_key
  set_qps s model gpu sm quota qps =
      if fle qps nought
      then (s, false)
      else (store_qps (rounded_key model gpu sm quota) qps s, true)

  abbrev pub positive_only : Option F → Option F
  positive_only none = none
  positive_only (some qps) = if fle qps nought then none else some qps

  -- `Get`: the number, if the flag is true.
  unfoldable pub get_qps : QpsStore F → String → String → ℤ → F → Option F
  unfolding find_qps rounded_key
  get_qps s model gpu sm quota = positive_only (find_qps (rounded_key model gpu sm quota) s)

  abbrev pub is_valid : Option F → Bool
  is_valid none = false
  is_valid (some qps) = flt nought qps

  abbrev pub number : Option F → F
  number none = nought
  number (some qps) = qps

  unfoldable pub interpolated : Option F → Option F → F
  interpolated lower upper =
      if is_valid lower && is_valid upper
      then fdiv (fadd (number lower) (number upper)) (decimal 2 0)
      else if is_valid lower
      then number lower
      else if is_valid upper
      then number upper
      else nought

  unfoldable pub nearest : QpsStore F → String → String → ℤ → F → ℤ → F
  unfolding bracket interpolated get_qps
  nearest s model gpu sm quota round_by =
      if round_by == pos 0
      then nought
      else let (lower, upper) = bracket sm round_by in
        interpolated (get_qps s model gpu lower quota) (get_qps s model gpu upper quota)

  -- `GetQPS`
  unfoldable pub estimate_qps : QpsStore F → String → String → ℤ → F → ℤ → F
  unfolding get_qps nearest
  estimate_qps s model gpu sm quota round_by = elim (get_qps s model gpu sm quota) [
    | some qps ↦ if fle qps nought then nought else qps
    | none ↦ nearest s model gpu sm quota round_by
  ]

  -- A row of five fields that parses: its key, with the quota as it stands in the file, and its number.
  unfoldable pub parse_row : Parsers F → Row → Option (ProfileKey F × F)
  parse_row p (gpu ∷ model ∷ quota ∷ sm ∷ qps ∷ rest) = Option.bind (p.parse_float quota) λ q.
      Option.bind (p.atoi sm) λ n.
        Option.map
          (λ v. (record { model_name = model; gpu_type = gpu; sm_percentage = n; quota = q }, v))
          (p.parse_float qps)
  parse_row p _ = none

  abbrev pub improves : F → Option F → Bool
  improves qps none = true
  improves qps (some existing) = flt existing qps

  -- One row of `NewRPSStore`: only a number that beats the one at hand is stored.
  unfoldable pub load_pair : ProfileKey F × F → QpsStore F → QpsStore F
  unfolding find_qps store_qps
  load_pair (key, qps) s =
      if fle qps nought then s else if improves qps (find_qps key s) then store_qps key qps s else s

  unfoldable pub load_row : Parsers F → Row → QpsStore F → QpsStore F
  unfolding parse_row load_pair
  load_row p row s = elim (parse_row p row) [ none ↦ s | some r ↦ load_pair r s ]

  unfoldable pub load_rows : Parsers F → List Row → QpsStore F → QpsStore F
  unfolding load_row
  load_rows p [] s = s
  load_rows p (row ∷ rows) s = load_rows p rows (load_row p row s)

  -- A file, of which the first record is the header; `none` is a file that the CSV reader refuses.
  unfoldable pub load_file : Parsers F → Option (List Row) → QpsStore F → QpsStore F
  unfolding load_rows
  load_file p none s = s
  load_file p (some []) s = s
  load_file p (some (header ∷ rows)) s = load_rows p rows s

  -- `NewRPSStore`, over what the CSV reader makes of the embedded files, in their order.
  unfoldable pub load_files : Parsers F → List (Option (List Row)) → QpsStore F → QpsStore F
  unfolding load_file
  load_files p [] s = s
  load_files p (file ∷ rest) s = load_files p rest (load_file p file s)

  unfoldable pub new_rps_store : Parsers F → List (Option (List Row)) → QpsStore F
  unfolding load_files
  new_rps_store p files = load_files p files []
