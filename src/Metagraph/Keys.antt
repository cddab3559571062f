-- ===== src/Metagraph/Keys.antt =====
-- `KeyCacheService` of app/src/apps/metagraph/services/key_cache.py, over the three tables of keys of
-- app/src/apps/metagraph/models.py. A wallet address is a text and a moment is a number.
pub mod Assign
pub mod Refines
pub mod Unique
use Prim.Native.String.{String}
use text.Mathlib.Text.{◌==◌ as str_eq}
use sentinel_tower.Prelude.{
  ℕ, ◌==◌, Bool, true, false, not, ◌&&◌, ◌||◌, Option, none, some, List, [], ◌∷◌, length, filter,
  if◌then◌else◌,
}
use sentinel_tower.Json.{Result, ok, raised}
use sentinel_tower.Prelude.Rows.{find_row, update_where}
use sentinel_tower.Metagraph.Tables.{Table, get_or_create}

pub record Coldkey : Type 0 where
  pub id : ℕ
  pub coldkey : String

pub record Hotkey : Type 0 where
  pub id : ℕ
  pub hotkey : String
  pub coldkey_id : ℕ
  pub last_seen : Option ℕ

pub record EvmKey : Type 0 where
  pub id : ℕ
  pub evm_address : String

-- A Python dict by address; an entry hides those behind it.
abbrev pub Cache : Type 0 → Type 0
Cache A = List (String × A)

-- The tables, and the attributes of the service.
pub record Keys : Type 0 where
  pub coldkeys : Table Coldkey
  pub hotkeys : Table Hotkey
  pub evmkeys : Table EvmKey
  pub coldkey_cache : Cache Coldkey
  pub hotkey_cache : Cache Hotkey
  pub evmkey_cache : Cache EvmKey
  pub hotkeys_to_update : List ℕ

unfoldable pub cached : {A : Type 0} → String → Cache A → Option A
cached a [] = none
cached a ((b, x) ∷ entries) = if str_eq a b then some x else cached a entries

abbrev pub is_coldkey : String → Coldkey → Bool
is_coldkey a k = str_eq a k.coldkey

abbrev pub is_hotkey : String → Hotkey → Bool
is_hotkey a k = str_eq a k.hotkey

abbrev pub is_evmkey : String → EvmKey → Bool
is_evmkey a k = str_eq a k.evm_address

unfoldable pub is_among : ℕ → List ℕ → Bool
is_among n [] = false
is_among n (m ∷ ms) = (n == m) || is_among n ms

-- `set.add`
unfoldable pub add_id : ℕ → List ℕ → List ℕ
unfolding is_among
add_id n ms = if is_among n ms then ms else n ∷ ms

unfoldable pub get_or_create_coldkey : String → Keys → Coldkey × Keys
unfolding cached get_or_create
get_or_create_coldkey a s = elim (cached a s.coldkey_cache) [
  | some k ↦ (k, s)
  | none ↦
      let found = get_or_create (is_coldkey a) (λ i. record { id = i; coldkey = a }) s.coldkeys in
      (found.0, record s { coldkeys = found.2; coldkey_cache = (a, found.0) ∷ s.coldkey_cache })
]

unfoldable pub get_or_create_evmkey : String → Keys → EvmKey × Keys
unfolding cached get_or_create
get_or_create_evmkey a s = elim (cached a s.evmkey_cache) [
  | some k ↦ (k, s)
  | none ↦
      let found = get_or_create (is_evmkey a) (λ i. record { id = i; evm_address = a }) s.evmkeys in
      (found.0, record s { evmkeys = found.2; evmkey_cache = (a, found.0) ∷ s.evmkey_cache })
]

unfoldable pub get_cached_hotkey : String → Keys → Option Hotkey
unfolding cached
get_cached_hotkey a s = cached a s.hotkey_cache

-- `hotkey.save(update_fields=["coldkey"])`
unfoldable pub save_coldkey : ℕ → ℕ → List Hotkey → List Hotkey
unfolding update_where
save_coldkey i c rows = update_where (λ r. r.id == i) (λ r. record r { coldkey_id = c }) rows

-- The coldkey of the hotkey's data, if it has any.
unfoldable pub coldkey_of : Option String → Keys → Option Coldkey × Keys
unfolding get_or_create_coldkey
coldkey_of none s = (none, s)
coldkey_of (some c) s = let found = get_or_create_coldkey c s in (some found.0, found.1)

-- A row that was there takes the coldkey, if that is another one, and is seen.
unfoldable pub existing_hotkey : Hotkey → Option Coldkey → Keys → Hotkey × Keys
unfolding save_coldkey add_id
existing_hotkey h none s = (h, record s { hotkeys_to_update = add_id h.id s.hotkeys_to_update })
existing_hotkey h (some c) s =
    if h.coldkey_id == c.id
    then (h, record s { hotkeys_to_update = add_id h.id s.hotkeys_to_update })
    else (
      record h { coldkey_id = c.id },
      record s {
        hotkeys = record s.hotkeys { rows = save_coldkey h.id c.id s.hotkeys.rows };
        hotkeys_to_update = add_id h.id s.hotkeys_to_update;
      },
    )

-- `Hotkey.objects.get_or_create`, and what follows on a row that was there. The column of the coldkey
-- takes no NULL, so that a new hotkey without one is an exception.
unfoldable pub fetch_hotkey : ℕ → String → Option Coldkey × Keys → Result (Hotkey × Keys)
unfolding get_or_create existing_hotkey find_row
fetch_hotkey now a (none, s) = elim (find_row (is_hotkey a) s.hotkeys.rows) [
  | none ↦ raised
  | some h ↦ ok (existing_hotkey h none s)
]
fetch_hotkey now a (some c, s) =
    let found =
      get_or_create (is_hotkey a)
        (λ i. record { id = i; hotkey = a; coldkey_id = c.id; last_seen = some now }) s.hotkeys in
    if found.1
    then ok (found.0, record s { hotkeys = found.2 })
    else ok (existing_hotkey found.0 (some c) s)

-- `self._hotkey_cache[hotkey_address] = hotkey`
unfoldable pub remember_hotkey : String → Result (Hotkey × Keys) → Result (Hotkey × Keys)
remember_hotkey a raised = raised
remember_hotkey a (ok (h, s)) = ok (h, record s { hotkey_cache = (a, h) ∷ s.hotkey_cache })

unfoldable pub get_or_create_hotkey : ℕ → String → Option String → Keys → Result (Hotkey × Keys)
unfolding cached coldkey_of fetch_hotkey remember_hotkey add_id
get_or_create_hotkey now a coldkey_data s = elim (cached a s.hotkey_cache) [
  | some h ↦ ok (h, record s { hotkeys_to_update = add_id h.id s.hotkeys_to_update })
  | none ↦ remember_hotkey a (fetch_hotkey now a (coldkey_of coldkey_data s))
]

-- The rows that were touched are seen now; how many they are.
unfoldable pub flush_hotkey_last_seen : ℕ → Keys → ℕ × Keys
unfolding update_where is_among
flush_hotkey_last_seen now s = elim s.hotkeys_to_update [
  | [] ↦ (0, s)
  | i ∷ is ↦ (
    length (filter (λ r. is_among r.id (i ∷ is)) s.hotkeys.rows),
    record s {
      hotkeys = record s.hotkeys {
        rows =
            update_where (λ r. is_among r.id (i ∷ is)) (λ r. record r { last_seen = some now })
              s.hotkeys.rows;
      };
      hotkeys_to_update = [];
    },
  )
]
