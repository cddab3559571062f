-- ===== src/Examples/Storing.antt =====
-- The storing of extrinsics at a concrete block.
use sentinel_tower.Prelude.{
  ℕ, String, ◌≡◌, refl, subst, true, false, ◌&&◌, Option, none, some, List, [], ◌∷◌, map,
  if◌then◌else◌,
}
use sentinel_tower.Prelude.Int.{pos}
use sentinel_tower.Json.{
  Json, null, int, str, arr, obj, nil, cons, Fields, end, field, Result, ok, get, iterate, ◌>>=◌,
  lookup, get_default, is_text, truthy,
}
use sentinel_tower.Extrinsics.Sanitize.{sanitize_json, remove_nul, IsClean, sanitize_json-IsClean}
use sentinel_tower.Extrinsics.Parse.{
  Extrinsic, parse_fields, is_success, extract_error, parse_extrinsic_record, extract_netuid,
}
use sentinel_tower.Extrinsics.Parse.Valid.{IsValid, parse_extrinsic_record-IsValid}
use sentinel_tower.Extrinsics.Hyperparams.{
  Store, find, same_key, change_of, enrich_extrinsic_with_previous_values,
  enrich_extrinsics_with_previous_values,
}
use sentinel_tower.Extrinsics.Hyperparams.History.{
  latest, IsConsistent, enrich_extrinsics-IsConsistent,
}
use sentinel_tower.Extrinsics.Hyperparams.Enriched.{enrich_extrinsic-reports}
use sentinel_tower.Extrinsics.Sync.{Db, Setup, Block, record_of, store_block_extrinsics}
use sentinel_tower.Extrinsics.Sync.Again.{AllHashed}
use sentinel_tower.Extrinsics.Sync.Rows.{store_block_extrinsics_again}

abbrev argument : String → Json → Json
argument name value = obj (field "name" (str name) (field "value" value end))

abbrev args : Json
args = arr (cons (argument "netuid" (int (pos 5))) (cons (argument "tempo" (int (pos 99))) nil))

-- A call of AdminUtils that sets the tempo of subnet 5.
abbrev pub set_tempo : Extrinsic
set_tempo = record {
  extrinsic_hash = str "0xab";
  block_number = int (pos 7);
  block_timestamp = null;
  extrinsic_index = int (pos 2);
  call_module = str "AdminUtils";
  call_function = str "sudo_set_tempo";
  call_args = args;
  address = str "";
  signature = null;
  nonce = null;
  tip_rao = null;
  success = true;
  status = str "Success";
  error_data = null;
  events = arr nil;
  netuid = int (pos 5);
  previous_values = none;
  is_sudo = false;
}

abbrev to_column : Json → Option ℕ
to_column (int (pos n)) = some n
to_column _ = none

abbrev no_store : Store
no_store = record { params = []; history = [] }

no_store-IsConsistent : IsConsistent no_store
unfolding find latest
no_store-IsConsistent = record { agree = λ n p. refl; chained = tt }

enrich_extrinsics-IsConsistent_example :
    IsConsistent
      (enrich_extrinsics_with_previous_values to_column (set_tempo ∷ set_tempo ∷ []) no_store).1
enrich_extrinsics-IsConsistent_example =
    enrich_extrinsics-IsConsistent to_column (set_tempo ∷ set_tempo ∷ []) no_store
      no_store-IsConsistent

set_tempo_change : change_of set_tempo ≡ ok (some (int (pos 5), "tempo", int (pos 99)))
unfolding change_of ◌>>=◌ get iterate lookup is_text
set_tempo_change = refl

enrich_extrinsic-reports_example :
    ((enrich_extrinsic_with_previous_values to_column set_tempo no_store).0
      ≡ ok (record set_tempo { previous_values = some ("tempo", null) }))
    × ((m : ℕ) (q : String)
        → find m q (enrich_extrinsic_with_previous_values to_column set_tempo no_store).1.params
          ≡ (if true && same_key 5 "tempo" m q then some (int (pos 99)) else find m q []))
unfolding find
enrich_extrinsic-reports_example =
    enrich_extrinsic-reports to_column set_tempo (int (pos 5)) "tempo" (int (pos 99)) 5 no_store
      set_tempo_change refl

abbrev nul_text : Json
nul_text = str "a\0b"

sanitize_json-IsClean_example :
    IsClean (sanitize_json nul_text)
    × (sanitize_json (sanitize_json nul_text) ≡ sanitize_json nul_text)
sanitize_json-IsClean_example = sanitize_json-IsClean nul_text

abbrev call : Json
call = obj (
    field "call_module" (str "AdminUtils")
      (field "call_function" (str "sudo_set_tempo") (field "call_args" args end)))

abbrev dump : Fields
dump = field "extrinsic_hash" (str "0xab") (field "call" call (field "status" (str "Success") end))

abbrev parsed : Extrinsic
parsed = record set_tempo { block_number = int (pos 0); extrinsic_index = null }

dump_parsed : parse_extrinsic_record (obj dump) ≡ ok (some parsed)
unfolding parse_extrinsic_record ◌>>=◌ get_default truthy parse_fields extract_netuid get iterate
    is_text is_success extract_error sanitize_json remove_nul
dump_parsed = refl

parse_extrinsic_record-IsValid_example : IsValid parsed
parse_extrinsic_record-IsValid_example = parse_extrinsic_record-IsValid (obj dump) dump_parsed

abbrev arg_list : List Json
arg_list = argument "netuid" (int (pos 5)) ∷ argument "tempo" (int (pos 99)) ∷ []

abbrev pub setup : Setup
setup = record { registry = []; event_registry = []; to_column = to_column }

abbrev pub block : Block
block = record { extrinsics = dump ∷ dump ∷ []; timestamp = null; events = [] }

abbrev pub db : Db
db = record { rows = []; store = no_store; box = [] }

abbrev Hashed : Block → Type 0
Hashed read = AllHashed (map (record_of 7 read.timestamp) read.extrinsics)

block-Hashed : Hashed block
unfolding record_of get_default
block-Hashed = (("0xab", refl), (("0xab", refl), tt))

only_block : (read : Block) → ok block ≡ ok read → Hashed read
only_block read e = subst Hashed (same e) block-Hashed
  where
    same : ◌≡◌ {A = Result Block} (ok block) (ok read) → block ≡ read
    same p = cc

store_block_extrinsics_again_example :
    (store_block_extrinsics setup
      (λ n. ok block)
      7
      (store_block_extrinsics setup (λ n. ok block) 7 db).1).1.rows
    ≡ (store_block_extrinsics setup (λ n. ok block) 7 db).1.rows
store_block_extrinsics_again_example =
    store_block_extrinsics_again setup (λ n. ok block) 7 db only_block
