-- ===== src/Dagster/Keys.antt =====
-- The checkpoint keys of metagraph files in app/src/project/dagster/jobs.py.
use Prim.Native.Char.{code}
use Prim.Native.String.{String}
use sentinel_tower.Prelude.{
  ℕ, ◌≡◌, refl, sym, ap, ◌∙◌, not, Option, none, some, List, [], ◌∷◌, ◌++◌, ◌==◌, if◌then◌else◌,
  some_injective,
}
use sentinel_tower.Prelude.Int.{ℤ}
use sentinel_tower.Storage.{Text}
use sentinel_tower.Storage.Backend.{starts_with}
use sentinel_tower.Dagster.Decimal.{
  print_int, parse_int, parse_int-print_int, NoColon, print_int-NoColon,
}

abbrev pub characters_of : String → Text
characters_of String.[] = []
characters_of (String.◌∷◌ c s) = code c ∷ characters_of s

abbrev pub metagraph_prefix : Text
metagraph_prefix = characters_of "metagraph"

abbrev pub colon : Text
colon = 58 ∷ []

-- `_get_metagraph_checkpoint_key`
unfoldable pub get_metagraph_checkpoint_key : ℤ → ℤ → Text
unfolding print_int
get_metagraph_checkpoint_key netuid block =
    metagraph_prefix ++ (colon ++ (print_int netuid ++ (colon ++ print_int block)))

-- `key.split(":")`
abbrev pub onto_part : ℕ → List Text → List Text
onto_part c [] = (c ∷ []) ∷ []
onto_part c (p ∷ ps) = (c ∷ p) ∷ ps

unfoldable pub split_on_colon : Text → List Text
split_on_colon [] = [] ∷ []
split_on_colon (c ∷ cs) =
    let rest = split_on_colon cs in if c == 58 then [] ∷ rest else onto_part c rest

-- Both numbers, or none where one of them is a ValueError.
abbrev pub both_ints : Option ℤ → Option ℤ → Option (ℤ × ℤ)
both_ints (some a) (some b) = some (a, b)
both_ints _ _ = none

abbrev pub second_and_third : List Text → Option (ℤ × ℤ)
unfolding parse_int
second_and_third (p ∷ q ∷ r ∷ []) = both_ints (parse_int q) (parse_int r)
second_and_third _ = none

-- `_parse_metagraph_checkpoint_key`
unfoldable pub parse_metagraph_checkpoint_key : Text → Option (ℤ × ℤ)
unfolding starts_with split_on_colon parse_int
parse_metagraph_checkpoint_key key =
    if not (starts_with (metagraph_prefix ++ colon) key)
    then none
    else second_and_third (split_on_colon key)

split_on_colon-part :
    (t rest : Text) → NoColon t → split_on_colon (t ++ 58 ∷ rest) ≡ t ∷ split_on_colon rest
unfolding split_on_colon
split_on_colon-part [] rest n = refl
split_on_colon-part (c ∷ cs) rest n = rw n.0 (ap (onto_part c) (split_on_colon-part cs rest n.1))

split_on_colon-last : (t : Text) → NoColon t → split_on_colon t ≡ t ∷ []
unfolding split_on_colon
split_on_colon-last [] n = refl
split_on_colon-last (c ∷ cs) n = rw n.0 (ap (onto_part c) (split_on_colon-last cs n.1))

both_numbers :
    (a b : ℤ) → both_ints (parse_int (print_int a)) (parse_int (print_int b)) ≡ some (a, b)
both_numbers a b = rw (parse_int-print_int a, parse_int-print_int b) refl

-- Parsing the key of a subnet and a block gives the two back.
parse_key-get_key :
    (netuid block : ℤ)
    → parse_metagraph_checkpoint_key (get_metagraph_checkpoint_key netuid block)
      ≡ some (netuid, block)
unfolding parse_metagraph_checkpoint_key get_metagraph_checkpoint_key starts_with
parse_key-get_key netuid block =
    ap (λ ps. second_and_third (metagraph_prefix ∷ ps))
      (split_on_colon-part (print_int netuid) (print_int block) (print_int-NoColon netuid)
        ∙ ap (λ ps. print_int netuid ∷ ps)
            (split_on_colon-last (print_int block) (print_int-NoColon block)))
    ∙ both_numbers netuid block

-- Different files have different keys.
get_key-injective :
    (netuid block netuid' block' : ℤ)
    → get_metagraph_checkpoint_key netuid block ≡ get_metagraph_checkpoint_key netuid' block'
    → ◌≡◌ {A = ℤ × ℤ} (netuid, block) (netuid', block')
get_key-injective netuid block netuid' block' e = some_injective (
    sym (parse_key-get_key netuid block)
    ∙ ap parse_metagraph_checkpoint_key e
    ∙ parse_key-get_key netuid' block')
