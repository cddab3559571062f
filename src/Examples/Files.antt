-- ===== src/Examples/Files.antt =====
-- The theorems on stored files at small files.
use sentinel_tower.Prelude.{
  ◌≡◌, refl, Bool, true, false, ◌==◌, ◌++◌, none, some, [], ◌∷◌, if◌then◌else◌,
}
use sentinel_tower.Json.{ok, raised, ◌>>=◌}
use sentinel_tower.Storage.{Text, Files, is_blank, Codec, read_all}
use sentinel_tower.Storage.RoundTrip.{is_flat, IsCodec, append_all, read_all-append_all}
use sentinel_tower.Storage.Backend.{
  slash, text_eq, lstrip, ends_with_slash, matches_class, valid_key, split, has_part, join,
  norm_parts, join_reversed, initial_slashes, normpath, starts_with, under_base, resolve_key,
  FileSystem, store, read,
}
use sentinel_tower.Storage.Backend.Lexical.{path_of, read-store, resolve_key_lexical}

-- Truth values, as "1" and "0".
abbrev codec : Codec Bool
codec = record {
  dumps = λ b. (if b then 49 else 48) ∷ [];
  loads = λ t. elim t [ [] ↦ raised | c ∷ cs ↦ ok (c == 49) ];
}

codec-IsCodec : IsCodec codec
unfolding is_flat is_blank
codec-IsCodec = record { flat = flat; not_blank = not_blank; loads-dumps = loads-dumps }
  where
    flat : (b : Bool) → is_flat (codec.dumps b) ≡ true
    flat true = refl
    flat false = refl

    not_blank : (b : Bool) → is_blank (codec.dumps b ++ 10 ∷ []) ≡ false
    not_blank true = refl
    not_blank false = refl

    loads-dumps : (b : Bool) → codec.loads (codec.dumps b ++ 10 ∷ []) ≡ ok b
    loads-dumps true = refl
    loads-dumps false = refl

abbrev no_files : Files
no_files q = none

read_all-append_all_example :
    read_all codec "data/1.jsonl"
      (append_all codec "data/1.jsonl" ((true, true) ∷ (false, false) ∷ []) no_files)
    ≡ ok (true ∷ false ∷ [])
read_all-append_all_example =
    read_all-append_all codec codec-IsCodec "data/1.jsonl" ((true, true) ∷ (false, false) ∷ [])
      no_files refl

-- The base path "d" and the key "/a//b".
abbrev base : Text
base = 100 ∷ []

abbrev key : Text
key = 47 ∷ 97 ∷ 47 ∷ 47 ∷ 98 ∷ []

abbrev path : Text
path = 100 ∷ 47 ∷ 97 ∷ 47 ∷ 98 ∷ []

resolved : resolve_key base key ≡ ok path
unfolding resolve_key ◌>>=◌ valid_key lstrip ends_with_slash text_eq matches_class under_base
    has_part split join normpath norm_parts join_reversed initial_slashes starts_with
resolved = refl

resolve_key_lexical_example :
    (k : Text) × (valid_key key ≡ ok k)
    × (path ≡ path_of base k)
    × (starts_with (base ++ slash ∷ []) path ≡ true)
unfolding text_eq ends_with_slash has_part split
resolve_key_lexical_example = resolve_key_lexical base key path refl refl refl resolved

abbrev content : Text
content = 49 ∷ []

abbrev empty_system : FileSystem base
empty_system q = none

stored :
    store base key content empty_system ≡ ok (λ q. if text_eq q path then some content else none)
unfolding store resolve_key ◌>>=◌ valid_key lstrip ends_with_slash text_eq matches_class under_base
    has_part split join normpath norm_parts join_reversed initial_slashes starts_with
stored = refl

read-store_example :
    read base key (λ q. if text_eq q path then some content else none)
    ≡ (if text_eq path path then ok content else read base key empty_system)
read-store_example =
    read-store base key key content empty_system
      (λ q. if text_eq q path then some content else none) path path stored resolved resolved

-- The base path "/" takes no key.
root_refuses : resolve_key (slash ∷ []) (97 ∷ []) ≡ raised
unfolding resolve_key ◌>>=◌ valid_key lstrip ends_with_slash text_eq matches_class under_base
    has_part split join normpath norm_parts join_reversed initial_slashes starts_with
root_refuses = refl

-- A newline at the end of a key is let through.
newline_accepted : valid_key (97 ∷ 10 ∷ []) ≡ ok (97 ∷ 10 ∷ [])
unfolding valid_key lstrip ends_with_slash text_eq matches_class
newline_accepted = refl
