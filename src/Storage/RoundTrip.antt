-- ===== src/Storage/RoundTrip.antt =====
-- What is appended or written is read back.
use Prim.Native.String.{String}
use text.Mathlib.TextPositions.{eq_refl as str_eq-refl}
use sentinel_tower.Prelude.{
  ◌==◌, ◌≡◌, refl, sym, ap, ◌∙◌, inl, inr, ◌⊎◌, Bool, true, false, not, ◌&&◌, none, some, List, [],
  ◌∷◌, ◌++◌, Bool-cases,
}
use mathlib.Core.List.{append_assoc}
use sentinel_tower.Json.{ok, ◌>>=◌}
use sentinel_tower.Storage.{
  Text, newline, Files, save, remove, is_blank, lines_of, Codec, load_lines, parse, read_all,
  json_line, append_local, append_storage, append, join_lines, end_line, overwrite,
}

-- No character of the text ends a line.
unfoldable pub is_flat : Text → Bool
is_flat [] = true
is_flat (c ∷ cs) = not (c == 10) && is_flat cs

-- What `json.dumps` and `json.loads` do: the text of a value is one line and is not blank, and the line
-- gives the value back.
pub record IsCodec {V : Type 0} (codec : Codec V) : Type 0 where
  pub flat : (v : V) → is_flat (codec.dumps v) ≡ true
  pub not_blank : (v : V) → is_blank (json_line codec v) ≡ false
  pub loads-dumps : (v : V) → codec.loads (json_line codec v) ≡ ok v

lines_of-line :
    (t rest : Text)
    → is_flat t ≡ true
    → lines_of (t ++ newline ++ rest) ≡ (t ++ newline) ∷ lines_of rest
unfolding lines_of is_flat
lines_of-line [] rest h = refl
lines_of-line (c ∷ cs) rest h = elim (Bool-cases (c == 10)) [
  | inl t ↦ absurd_flat (rw t at h)
  | inr f ↦ rw (f, lines_of-line cs rest (rw f at h)) refl
]
  where
    absurd_flat :
        false ≡ true
        → lines_of ((c ∷ cs) ++ newline ++ rest) ≡ ((c ∷ cs) ++ newline) ∷ lines_of rest
    absurd_flat e = cc

append_nil : {A : Type 0} (xs : List A) → xs ++ [] ≡ xs
append_nil [] = refl
append_nil (x ∷ xs) = ap (λ l. x ∷ l) (append_nil xs)

module _ {V : Type 0} (codec : Codec V) where
  -- The file of some values: a line for each.
  abbrev pub content_of : List V → Text
  content_of [] = []
  content_of (v ∷ vs) = json_line codec v ++ content_of vs

  content_of-append :
      (vs : List V) (v : V) → content_of vs ++ json_line codec v ≡ content_of (vs ++ v ∷ [])
  content_of-append [] v = sym (append_nil (json_line codec v))
  content_of-append (w ∷ vs) v =
      append_assoc (json_line codec w) (content_of vs) (json_line codec v)
      ∙ ap (λ t. json_line codec w ++ t) (content_of-append vs v)

module _ {V : Type 0} (codec : Codec V) (good : IsCodec codec) where
  parse-content_of : (vs : List V) → parse codec (content_of codec vs) ≡ ok vs
  unfolding parse load_lines ◌>>=◌ lines_of
  parse-content_of [] = refl
  parse-content_of (v ∷ vs) =
      rw (lines_of-line (codec.dumps v) (content_of codec vs) (good.flat v), good.not_blank v)
        (rw (good.loads-dumps v, parse-content_of vs) refl)

  -- The file holds the values; a file that is not there holds none.
  abbrev Holds : String → List V → Files → Type 0
  Holds path vs files =
      (files path ≡ some (content_of codec vs)) ⊎ ((files path ≡ none) × (vs ≡ []))

  read_all-Holds :
      (path : String) (vs : List V) (files : Files)
      → Holds path vs files
      → read_all codec path files ≡ ok vs
  unfolding read_all
  read_all-Holds path vs files (inl e) = rw (e, read_all) (parse-content_of vs)
  read_all-Holds path vs files (inr (e, n)) = rw (e, n, read_all) refl

  append-at :
      (is_local : Bool) (path : String) (v : V) (files : Files) {old : Text}
      → files path ≡ some old
      → append codec is_local path v files path ≡ some (old ++ json_line codec v)
  unfolding append append_local append_storage save remove
  append-at true path v files e = rw (e, append_local, str_eq-refl path) refl
  append-at false path v files e = rw (e, append_storage, str_eq-refl path) refl

  append-new :
      (is_local : Bool) (path : String) (v : V) (files : Files)
      → files path ≡ none
      → append codec is_local path v files path ≡ some (json_line codec v)
  unfolding append append_local append_storage save remove
  append-new true path v files e = rw (e, append_local, str_eq-refl path) refl
  append-new false path v files e = rw (e, append_storage, str_eq-refl path) refl

  append-Holds :
      (is_local : Bool) (path : String) (v : V) (vs : List V) (files : Files)
      → Holds path vs files
      → Holds path (vs ++ v ∷ []) (append codec is_local path v files)
  append-Holds is_local path v vs files (inl e) =
      inl (append-at is_local path v files e ∙ ap (λ t. some t) (content_of-append codec vs v))
  append-Holds is_local path v vs files (inr (e, n)) = inl (
      rw n (
        append-new is_local path v files e
        ∙ ap (λ t. some t) (sym (append_nil (json_line codec v)))))

-- A run of appends to one file, each to the local file system or to another storage.
unfoldable pub append_all : {V : Type 0} → Codec V → String → List (Bool × V) → Files → Files
unfolding append
append_all codec path [] files = files
append_all codec path ((b, v) ∷ vs) files = append_all codec path vs (append codec b path v files)

abbrev pub values_of : {V : Type 0} → List (Bool × V) → List V
values_of [] = []
values_of ((b, v) ∷ vs) = v ∷ values_of vs

module _ {V : Type 0} (codec : Codec V) (good : IsCodec codec) where
  append_all-Holds :
      (path : String) (ops : List (Bool × V)) (vs : List V) (files : Files)
      → Holds codec good path vs files
      → Holds codec good path (vs ++ values_of ops) (append_all codec path ops files)
  unfolding append_all
  append_all-Holds path [] vs files h = rw (append_nil vs) h
  append_all-Holds path ((b, v) ∷ ops) vs files h =
      rw (sym (append_assoc vs (v ∷ []) (values_of ops)))
        (append_all-Holds path ops (vs ++ v ∷ []) _ (append-Holds codec good b path v vs files h))

  -- If `json.dumps` writes one line that is not blank, and `json.loads` reads that line back, then
  -- `read_all` of a file that was not there gives what was appended to it since, in order, whichever of
  -- the two ways of appending each time.
  pub read_all-append_all :
      (path : String) (ops : List (Bool × V)) (files : Files)
      → files path ≡ none
      → read_all codec path (append_all codec path ops files) ≡ ok (values_of ops)
  read_all-append_all path ops files e =
      read_all-Holds codec good path (values_of ops) _
        (append_all-Holds path ops [] files (inr (e, refl)))

  end_line-content :
      (v : V) (rest : Text)
      → end_line codec (codec.dumps v ++ rest) ≡ (codec.dumps v ++ rest) ++ newline
  unfolding is_blank
  end_line-content v rest = go (codec.dumps v) (good.not_blank v)
    where
      go :
          (t : Text)
          → is_blank (t ++ newline) ≡ false
          → end_line codec (t ++ rest) ≡ (t ++ rest) ++ newline
      go [] h = cc
      go (c ∷ cs) h = refl

  join_lines-newline :
      (v : V) (vs : List V) → join_lines codec (v ∷ vs) ++ newline ≡ content_of codec (v ∷ vs)
  unfolding join_lines
  join_lines-newline v [] = sym (append_nil (json_line codec v))
  join_lines-newline v (w ∷ vs) =
      append_assoc (json_line codec v) (join_lines codec (w ∷ vs)) newline
      ∙ ap (λ t. json_line codec v ++ t) (join_lines-newline w vs)

  join_lines-first :
      (v : V) (vs : List V) → (rest : Text) × (join_lines codec (v ∷ vs) ≡ codec.dumps v ++ rest)
  unfolding join_lines
  join_lines-first v [] = ([], sym (append_nil (codec.dumps v)))
  join_lines-first v (w ∷ vs) = (
    newline ++ join_lines codec (w ∷ vs),
    append_assoc (codec.dumps v) newline (join_lines codec (w ∷ vs)),
  )

  overwrite-content : (vs : List V) → end_line codec (join_lines codec vs) ≡ content_of codec vs
  unfolding join_lines
  overwrite-content [] = refl
  overwrite-content (v ∷ vs) =
      let first = join_lines-first v vs in
      ap (end_line codec) first.1
      ∙ end_line-content v first.0
      ∙ ap (λ t. t ++ newline) (sym first.1)
      ∙ join_lines-newline v vs

  -- If `json.dumps` writes one line that is not blank, and `json.loads` reads that line back, then
  -- `read_all` gives the values that the file was overwritten with, whatever it held before.
  read_all-overwrite :
      (path : String) (vs : List V) (files : Files)
      → read_all codec path (overwrite codec path vs files) ≡ ok vs
  unfolding overwrite save
  read_all-overwrite path vs files =
      read_all-Holds codec good path vs _
        (inl (rw (str_eq-refl path) (ap (λ t. some t) (overwrite-content vs))))
