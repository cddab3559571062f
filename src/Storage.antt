-- ===== src/Storage.antt =====
-- `JsonLinesStorage` of app/src/project/core/services/storage.py, over Django's default storage: a file
-- is a list of character codes. `json.dumps` and `json.loads`, the path of a file and whether the
-- storage is the local file system are parameters.
pub mod RoundTrip
pub mod Backend
use Prim.Native.String.{String}
use text.Mathlib.Text.{◌==◌ as str_eq}
use sentinel_tower.Prelude.{
  ℕ, ◌==◌, Bool, true, false, not, ◌&&◌, ◌||◌, Option, none, some, List, [], ◌∷◌, ◌++◌, map, filter,
  if◌then◌else◌, leb,
}
use sentinel_tower.Json.{Result, ok, raised, ◌>>=◌}

abbrev pub Text : Type 0
Text = List ℕ

abbrev pub newline : Text
newline = 10 ∷ []

-- The files of the storage, by their paths.
abbrev pub Files : Type 0
Files = String → Option Text

unfoldable pub save : String → Text → Files → Files
save path content files q = if str_eq q path then some content else files q

unfoldable pub remove : String → Files → Files
remove path files q = if str_eq q path then none else files q

-- What `str.strip` takes for a space, among the first 256 characters.
abbrev pub is_space : ℕ → Bool
is_space c =
    (c == 32) || (leb 9 c && leb c 13) || (leb 28 c && leb c 31) || (c == 133) || (c == 160)

unfoldable pub is_blank : Text → Bool
is_blank [] = true
is_blank (c ∷ cs) = is_space c && is_blank cs

-- Puts a character before the first line.
abbrev pub onto_line : ℕ → List Text → List Text
onto_line c [] = (c ∷ []) ∷ []
onto_line c (l ∷ ls) = (c ∷ l) ∷ ls

-- `for line in f`: every line with the newline that ends it.
unfoldable pub lines_of : Text → List Text
lines_of [] = []
lines_of (c ∷ cs) = let rest = lines_of cs in if c == 10 then newline ∷ rest else onto_line c rest

-- The conversions of JSON.
pub record Codec (V : Type 0) : Type 0 where
  pub dumps : V → Text
  pub loads : Text → Result V

module _ {V : Type 0} (codec : Codec V) where
  unfoldable pub load_lines : List Text → Result (List V)
  load_lines [] = ok []
  load_lines (l ∷ ls) = do v ← codec.loads l; vs ← load_lines ls; ok (v ∷ vs)

  unfoldable pub parse : Text → Result (List V)
  unfolding load_lines lines_of is_blank
  parse content = load_lines (filter (λ l. not (is_blank l)) (lines_of content))

  unfoldable pub read_all : String → Files → Result (List V)
  unfolding parse
  read_all path files = elim (files path) [ none ↦ ok [] | some content ↦ parse content ]

  abbrev pub json_line : V → Text
  json_line v = codec.dumps v ++ newline

  -- Opens the file to append, which makes it where there is none.
  unfoldable pub append_local : String → Text → Files → Files
  unfolding save
  append_local path line files = elim (files path) [
    | none ↦ save path line files
    | some content ↦ save path (content ++ line) files
  ]

  -- Reads the file, deletes it and writes it again.
  unfoldable pub append_storage : String → Text → Files → Files
  unfolding save remove
  append_storage path line files = elim (files path) [
    | none ↦ save path line files
    | some content ↦ save path (content ++ line) (remove path files)
  ]

  unfoldable pub append : Bool → String → V → Files → Files
  unfolding append_local append_storage
  append is_local path v files =
      if is_local
      then append_local path (json_line v) files
      else append_storage path (json_line v) files

  -- `"\n".join(...)`
  unfoldable pub join_lines : List V → Text
  join_lines [] = []
  join_lines (v ∷ []) = codec.dumps v
  join_lines (v ∷ w ∷ vs) = codec.dumps v ++ newline ++ join_lines (w ∷ vs)

  abbrev pub end_line : Text → Text
  end_line [] = []
  end_line (c ∷ cs) = (c ∷ cs) ++ newline

  unfoldable pub overwrite : String → List V → Files → Files
  unfolding save remove join_lines
  overwrite path vs files =
      save path (end_line (join_lines vs))
        (elim (files path) [ none ↦ files | some content ↦ remove path files ])

unfoldable pub exists : String → Files → Bool
exists path files = elim (files path) [ none ↦ false | some content ↦ true ]

unfoldable pub delete : String → Files → Bool × Files
unfolding remove
delete path files = elim (files path) [
  | none ↦ (false, files)
  | some content ↦ (true, remove path files)
]
