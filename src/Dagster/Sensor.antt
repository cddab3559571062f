-- ===== src/Dagster/Sensor.antt =====
-- `extrinsics_sensor` and `metagraph_sensor` of app/src/project/dagster/jobs.py, which do the same over
-- two directories: they ask for a run when the size of the data is not the one of the last request.
use sentinel_tower.Prelude.{
  ℕ, ◌<◌, ◌≡◌, refl, sym, ap, ◌∙◌, some_injective, Bool, true, false, Option, none, some, List, [],
  ◌∷◌, ◌++◌, if◌then◌else◌, arith, Bool-cases, inl, inr,
}
use sentinel_tower.Prelude.Int.{ℤ, pos, ltb_ℤ}
use sentinel_tower.Json.{Result, ok, raised}
use sentinel_tower.Storage.{Text}
use sentinel_tower.Dagster.Decimal.{print_int, parse_int, parse_int-print_int}

-- What a tick yields.
pub data Yield : Type 0 where
  skip_reason : Yield
  run_request : (run_key : Option Text) → Yield

-- `int(context.cursor) if context.cursor else 0`
unfoldable pub last_cursor : Option Text → Option ℤ
unfolding parse_int
last_cursor none = some (pos 0)
last_cursor (some []) = some (pos 0)
last_cursor (some (c ∷ cs)) = parse_int (c ∷ cs)

-- The comparison with the cursor: what is yielded, and the new cursor.
unfoldable pub compare_size : Text → ℕ → ℤ → Option Text → List Yield × Option Text
unfolding print_int
compare_size prefix size last cursor =
    if ltb_ℤ (pos size) last
    then (run_request none ∷ [], some (print_int (pos size)))
    else if ltb_ℤ last (pos size)
    then (run_request (some (prefix ++ print_int (pos size))) ∷ [], some (print_int (pos size)))
    else ([], cursor)

-- One tick, with the start of the run keys and whether a run is in progress.
unfoldable pub sensor_tick :
    Text → Bool → (current_size : ℕ) → (cursor : Option Text) → Result (List Yield × Option Text)
unfolding last_cursor compare_size
sensor_tick prefix true size cursor = ok (skip_reason ∷ [], cursor)
sensor_tick prefix false size cursor = elim (last_cursor cursor) [
  | none ↦ raised
  | some last ↦ ok (compare_size prefix size last cursor)
]

-- The cursor stands for a size.
abbrev pub Stands : Option Text → ℕ → Type 0
Stands cursor n = last_cursor cursor ≡ some (pos n)

-- A text that is read as a number is not empty.
Stands-print : (n : ℕ) → Stands (some (print_int (pos n))) n
unfolding last_cursor parse_int
Stands-print n = nonempty (print_int (pos n)) (parse_int-print_int (pos n))
  where
    nonempty : (t : Text) → parse_int t ≡ some (pos n) → last_cursor (some t) ≡ some (pos n)
    nonempty [] e = cc
    nonempty (c ∷ cs) e = e

-- What a tick yields where no run is in progress: nothing exactly if the size is the one that the cursor
-- stands for; a run without a key if it has shrunk, and one with the size as its key if it has grown.
abbrev pub Requests : Text → ℕ → ℕ → List Yield → Type 0
Requests prefix n size [] = size ≡ n
Requests prefix n size (run_request none ∷ []) = size < n
Requests prefix n size (run_request (some k) ∷ []) =
    (n < size) × (k ≡ prefix ++ print_int (pos size))
Requests prefix n size _ = ⊥

abbrev pub IsTicked : Text → ℕ → ℕ → Result (List Yield × Option Text) → Type 0
IsTicked prefix n size raised = ⊥
IsTicked prefix n size (ok (yields, cursor)) = Requests prefix n size yields × Stands cursor size

append-cancel : (t u v : Text) → t ++ u ≡ t ++ v → u ≡ v
append-cancel [] u v e = e
append-cancel (c ∷ t) u v e = append-cancel t u v (tail e)
  where
    tail : ◌≡◌ {A = Text} (c ∷ (t ++ u)) (c ∷ (t ++ v)) → t ++ u ≡ t ++ v
    tail q = cc

print_int-injective : (a b : ℤ) → print_int a ≡ print_int b → a ≡ b
print_int-injective a b e =
    some_injective (sym (parse_int-print_int a) ∙ ap parse_int e ∙ parse_int-print_int b)

module _ (prefix : Text) where
  compare_size-IsTicked :
      (n size : ℕ) (cursor : Option Text)
      → Stands cursor n
      → IsTicked prefix n size (ok (compare_size prefix size (pos n) cursor))
  unfolding compare_size
  compare_size-IsTicked n size cursor e = elim (Bool-cases (ltb_ℤ (pos size) (pos n))) [
    | inl t ↦ rw t (ground arith, Stands-print size)
    | inr m ↦ elim (Bool-cases (ltb_ℤ (pos n) (pos size))) [
      | inl t ↦ rw (m, t) ((ground arith, refl), Stands-print size)
      | inr k ↦ let same : size ≡ n = ground arith in rw (m, k) (same, rw same e)
    ]
  ]

  -- From a cursor that stands for a size, a tick with no run in progress does not fail; it asks for no
  -- run exactly if the size is the same, for a run without a key if the size has shrunk, and for one
  -- whose key is the prefix and the size if it has grown; and then the cursor stands for the new size.
  -- With a run in progress the cursor stays, so that the change is seen later. Keys of different sizes
  -- differ.
  pub sensor_tick-IsTicked :
      (n size : ℕ) (cursor : Option Text)
      → Stands cursor n
      → IsTicked prefix n size (sensor_tick prefix false size cursor)
        × (sensor_tick prefix true size cursor ≡ ok (skip_reason ∷ [], cursor))
        × ((other : ℕ)
            → prefix ++ print_int (pos size) ≡ prefix ++ print_int (pos other)
            → pos size ≡ pos other)
  unfolding sensor_tick
  sensor_tick-IsTicked n size cursor e = (
    rw (e, sensor_tick) (compare_size-IsTicked n size cursor e),
    refl,
    λ other same. print_int-injective (pos size) (pos other) (append-cancel prefix _ _ same),
  )
