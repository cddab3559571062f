-- ===== src/Dagster/Reader.antt =====
-- `JsonLinesReader` of app/src/project/dagster/resources.py. A directory is the list of its files whose
-- names match `*.jsonl`, in the order of the file system, or none if it is not there; the text of a
-- file is what reading in text mode gives. `json.loads` is a parameter.
pub mod Lines
use Prim.Native.Char.{code}
use Prim.Native.String.{String}
use sentinel_tower.Prelude.{
  ℕ, suc, ◌+◌, ◌≡◌, refl, Bool, true, false, not, ◌&&◌, ◌||◌, Option, none, some, List, [], ◌∷◌,
  ◌++◌, map, length, ltb, leb, ◌==◌, if◌then◌else◌,
}
use sentinel_tower.Json.{Result, ok, raised}
use sentinel_tower.Storage.{Text, lines_of, is_space, is_blank}

pub record JsonlFile : Type 0 where
  pub name : String
  pub content : Text

abbrev pub Directory : Type 0
Directory = Option (List JsonlFile)

-- Whether one text is at or before another, by their characters.
unfoldable pub at_or_before : String → String → Bool
at_or_before String.[] t = true
at_or_before (String.◌∷◌ c s) String.[] = false
at_or_before (String.◌∷◌ c s) (String.◌∷◌ d t) =
    let rest = at_or_before s t in if code c == code d then rest else ltb (code c) (code d)

unfoldable pub insert_file : JsonlFile → List JsonlFile → List JsonlFile
unfolding at_or_before
insert_file f [] = f ∷ []
insert_file f (g ∷ gs) =
    let rest = insert_file f gs in if at_or_before f.name g.name then f ∷ g ∷ gs else g ∷ rest

-- `sorted(...)`, by the names, which are all different.
unfoldable pub sorted_files : List JsonlFile → List JsonlFile
unfolding insert_file
sorted_files [] = []
sorted_files (f ∷ fs) = insert_file f (sorted_files fs)

-- `line.strip()`
unfoldable pub lstrip_line : Text → Text
lstrip_line [] = []
lstrip_line (c ∷ cs) = let rest = lstrip_line cs in if is_space c then rest else c ∷ cs

unfoldable pub rstrip_line : Text → Text
unfolding is_blank
rstrip_line [] = []
rstrip_line (c ∷ cs) = let rest = rstrip_line cs in if is_blank (c ∷ cs) then [] else c ∷ rest

abbrev pub strip_line : Text → Text
strip_line l = rstrip_line (lstrip_line l)

module _ {V : Type 0} (loads : Text → Result V) where
  -- What a line adds to the records: nothing if it is blank or malformed.
  unfoldable pub records_of_line : Text → List V
  unfolding lstrip_line rstrip_line
  records_of_line l = elim (strip_line l) [
    | [] ↦ []
    | c ∷ cs ↦ elim (loads (c ∷ cs)) [ raised ↦ [] | ok v ↦ v ∷ [] ]
  ]

  -- The loop over lines, at the number of the next line: the records at or after the start, and the
  -- number after the last line.
  unfoldable pub read_lines : (start_line current_line : ℕ) → List Text → List V × ℕ
  unfolding records_of_line
  read_lines start current [] = ([], current)
  read_lines start current (l ∷ ls) =
      let (records, total) = read_lines start (suc current) ls in
      (if leb start current then records_of_line l ++ records else records, total)

  -- The loop over the files.
  unfoldable pub read_files : (start_line total_lines : ℕ) → List JsonlFile → List V × ℕ
  unfolding read_lines lines_of
  read_files start total [] = ([], total)
  read_files start total (f ∷ fs) =
      let (records, total') = read_lines start total (lines_of f.content) in
      let (others, final) = read_files start total' fs in (records ++ others, final)

  unfoldable pub read_partitioned_dir : Directory → (start_line : ℕ) → List V × ℕ
  unfolding read_files sorted_files
  read_partitioned_dir none start = ([], 0)
  read_partitioned_dir (some files) start = read_files start 0 (sorted_files files)

  unfoldable pub read_file : Option Text → (start_line : ℕ) → List V × ℕ
  unfolding read_lines lines_of
  read_file none start = ([], start)
  read_file (some content) start = read_lines start 0 (lines_of content)

  -- `read_metagraph_file`: the first record of a file.
  unfoldable pub read_metagraph_file : Option Text → Option V
  unfolding read_file
  read_metagraph_file content = elim (read_file content 0).0 [ [] ↦ none | v ∷ vs ↦ some v ]

unfoldable pub count_lines : Option Text → ℕ
unfolding lines_of
count_lines none = 0
count_lines (some content) = length (lines_of content)

unfoldable pub count_files : List JsonlFile → ℕ
unfolding lines_of
count_files [] = 0
count_files (f ∷ fs) = length (lines_of f.content) + count_files fs

unfoldable pub count_partitioned_lines : Directory → ℕ
unfolding count_files
count_partitioned_lines none = 0
count_partitioned_lines (some files) = count_files files

-- `stat().st_size` of a file is given, since it counts bytes.
unfoldable pub sum_sizes : (JsonlFile → ℕ) → List JsonlFile → ℕ
sum_sizes size [] = 0
sum_sizes size (f ∷ fs) = size f + sum_sizes size fs

unfoldable pub get_partitioned_total_size : (JsonlFile → ℕ) → Directory → ℕ
unfolding sum_sizes
get_partitioned_total_size size none = 0
get_partitioned_total_size size (some files) = sum_sizes size files

unfoldable pub list_partitioned_files : Directory → List String
unfolding sorted_files
list_partitioned_files none = []
list_partitioned_files (some files) = map (λ f. f.name) (sorted_files files)
