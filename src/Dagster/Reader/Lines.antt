-- ===== src/Dagster/Reader/Lines.antt =====
-- What `read_partitioned_dir` of app/src/project/dagster/resources.py reads from a line on.
use sentinel_tower.Prelude.{
  ℕ, zero, suc, ◌+◌, ◌-◌, ◌≡◌, refl, sym, ap, ◌∙◌, none, some, List, [], ◌∷◌, ◌++◌, length,
  length-append, leb, arith, Bool-cases, inl, inr,
}
use mathlib.Core.List.{append_assoc}
use sentinel_tower.Json.{Result}
use sentinel_tower.Storage.{Text, lines_of}
use sentinel_tower.Dagster.Reader.{
  JsonlFile, Directory, sorted_files, insert_file, records_of_line, read_lines, read_files,
  read_partitioned_dir, count_files, count_partitioned_lines, at_or_before,
}

-- The lines of all files, in order.
unfoldable pub all_lines : List JsonlFile → List Text
unfolding lines_of
all_lines [] = []
all_lines (f ∷ fs) = lines_of f.content ++ all_lines fs

unfoldable pub dir_lines : Directory → List Text
unfolding all_lines sorted_files
dir_lines none = []
dir_lines (some files) = all_lines (sorted_files files)

module _ {ℓ} {A : Type ℓ} where
  abbrev pub drop : ℕ → List A → List A
  drop zero xs = xs
  drop (suc n) [] = []
  drop (suc n) (x ∷ xs) = drop n xs

module _ {V : Type 0} (loads : Text → Result V) where
  -- The records of some lines.
  unfoldable pub records_of : List Text → List V
  unfolding records_of_line
  records_of [] = []
  records_of (l ∷ ls) = records_of_line loads l ++ records_of ls

  read_lines-total :
      (start n : ℕ) (ls : List Text) → (read_lines loads start n ls).1 ≡ n + length ls
  unfolding read_lines
  read_lines-total start n [] = omega arith
  read_lines-total start n (l ∷ ls) = omega (arith, read_lines-total start (suc n) ls)

  records_of-drop_nil : (k : ℕ) → records_of (drop k []) ≡ []
  unfolding records_of
  records_of-drop_nil zero = refl
  records_of-drop_nil (suc k) = refl

  read_lines-records :
      (start n : ℕ) (ls : List Text)
      → (read_lines loads start n ls).0 ≡ records_of (drop (start - n) ls)
  unfolding read_lines records_of
  read_lines-records start n [] = sym (records_of-drop_nil (start - n))
  read_lines-records start n (l ∷ ls) = elim (Bool-cases (leb start n)) [
    | inl t ↦
        let here : start - n ≡ 0 = ground arith in
        let there : start - suc n ≡ 0 = ground arith in
        rw (t, here, read_lines-records start (suc n) ls, there) refl
    | inr m ↦
        let here : start - n ≡ suc (start - suc n) = ground arith in
        rw (m, here, read_lines-records start (suc n) ls) refl
  ]

  pub records_of-append :
      (ls ms : List Text) → records_of (ls ++ ms) ≡ records_of ls ++ records_of ms
  unfolding records_of
  records_of-append [] ms = refl
  records_of-append (l ∷ ls) ms =
      ap (λ r. records_of_line loads l ++ r) (records_of-append ls ms)
      ∙ sym (append_assoc (records_of_line loads l) (records_of ls) (records_of ms))

  drop-append :
      (k : ℕ) (ls ms : List Text) → drop k (ls ++ ms) ≡ drop k ls ++ drop (k - length ls) ms
  drop-append zero ls ms = rw (zero_sub (length ls)) refl
    where
      zero_sub : (n : ℕ) → 0 - n ≡ 0
      zero_sub n = omega arith
  drop-append (suc k) [] ms = rw (sub_zero (suc k)) refl
    where
      sub_zero : (n : ℕ) → n - 0 ≡ n
      sub_zero n = omega arith
  drop-append (suc k) (l ∷ ls) ms = drop-append k ls ms ∙ rw (less k (length ls)) refl
    where
      less : (k n : ℕ) → suc k - suc n ≡ k - n
      less k n = omega arith

  read_files-lem :
      (start n : ℕ) (fs : List JsonlFile)
      → ((read_files loads start n fs).0 ≡ records_of (drop (start - n) (all_lines fs)))
        × ((read_files loads start n fs).1 ≡ n + length (all_lines fs))
  unfolding read_files all_lines
  read_files-lem start n [] = (sym (records_of-drop_nil (start - n)), omega arith)
  read_files-lem start n (f ∷ fs) =
      let ls = lines_of f.content in
      let total = read_lines-total start n ls in
      let rest = read_files-lem start (read_lines loads start n ls).1 fs in
      (
        ap (λ r. r ++ (read_files loads start (read_lines loads start n ls).1 fs).0)
              (read_lines-records start n ls)
            ∙ ap (λ r. records_of (drop (start - n) ls) ++ r)
                (rest.0
                  ∙ ap (λ k. records_of (drop k (all_lines fs))) (further (length ls) _ total))
            ∙ sym (
                ap records_of (drop-append (start - n) ls (all_lines fs))
                ∙ records_of-append (drop (start - n) ls) _),
        omega (arith, rest.1, total, length-append ls (all_lines fs)),
      )
    where
      further : (k m : ℕ) → m ≡ n + k → start - m ≡ start - n - k
      further k m e = omega arith

  -- From a line on, the reader gives the records of the lines from there to the end, over all files in
  -- the order of their names, and the number of all lines.
  pub read_partitioned_dir-lem :
      (d : Directory) (start : ℕ)
      → ((read_partitioned_dir loads d start).0 ≡ records_of (drop start (dir_lines d)))
        × ((read_partitioned_dir loads d start).1 ≡ length (dir_lines d))
  unfolding read_partitioned_dir dir_lines
  read_partitioned_dir-lem none start = (sym (records_of-drop_nil start), refl)
  read_partitioned_dir-lem (some files) start =
      let all = read_files-lem start 0 (sorted_files files) in
      (
        all.0 ∙ ap (λ k. records_of (drop k (all_lines (sorted_files files)))) (sub_zero start),
        omega (arith, all.1),
      )
    where
      sub_zero : (n : ℕ) → n - 0 ≡ n
      sub_zero n = omega arith

  drop-length : (ls ms : List Text) → drop (length ls) (ls ++ ms) ≡ ms
  drop-length [] ms = refl
  drop-length (l ∷ ls) ms = drop-length ls ms

  -- Where lines are added after all others, a reader that starts at the old number of lines gives the
  -- records of the new ones, no more and no less.
  read_partitioned_dir-append :
      (d d' : Directory) (new : List Text)
      → dir_lines d' ≡ dir_lines d ++ new
      → (read_partitioned_dir loads d' (read_partitioned_dir loads d 0).1).0 ≡ records_of new
  read_partitioned_dir-append d d' new e = rw (read_partitioned_dir-lem d 0).1 (
      (read_partitioned_dir-lem d' (length (dir_lines d))).0
      ∙ ap (λ ls. records_of (drop (length (dir_lines d)) ls)) e
      ∙ ap records_of (drop-length (dir_lines d) new))

count_files-insert :
    (f : JsonlFile) (fs : List JsonlFile)
    → length (all_lines (insert_file f fs)) ≡ length (lines_of f.content) + length (all_lines fs)
unfolding insert_file all_lines
count_files-insert f [] = omega (arith, length-append (lines_of f.content) [])
count_files-insert f (g ∷ gs) = elim (Bool-cases (at_or_before f.name g.name)) [
  | inl t ↦ rw t (length-append (lines_of f.content) (lines_of g.content ++ all_lines gs))
  | inr n ↦ rw n (
      omega (
        arith,
        count_files-insert f gs,
        length-append (lines_of g.content) (all_lines (insert_file f gs)),
        length-append (lines_of g.content) (all_lines gs),
      ))
]

count_files-eq : (fs : List JsonlFile) → count_files fs ≡ length (all_lines (sorted_files fs))
unfolding count_files sorted_files all_lines
count_files-eq [] = refl
count_files-eq (f ∷ fs) = omega (arith, count_files-eq fs, count_files-insert f (sorted_files fs))

-- The count of lines is the number that a read gives.
pub count_partitioned_lines-eq : (d : Directory) → count_partitioned_lines d ≡ length (dir_lines d)
unfolding count_partitioned_lines dir_lines
count_partitioned_lines-eq none = refl
count_partitioned_lines-eq (some files) = count_files-eq files
