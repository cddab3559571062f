-- ===== src/Storage/Backend.antt =====
-- `StorageBackend.resolve_key` of app/src/project/core/storage/base.py, and `FSSpecStorageBackend` of
-- fsspec.py beside it, with what posixpath does there. The file system is a map from paths to contents.
pub mod Lexical
use sentinel_tower.Prelude.{
  ℕ, ◌==◌, Bool, true, false, not, ◌&&◌, ◌||◌, Option, none, some, List, [], ◌∷◌, ◌++◌, filter, leb,
  if◌then◌else◌,
}
use sentinel_tower.Json.{Result, ok, raised, ◌>>=◌}
use sentinel_tower.Storage.{Text}

abbrev pub slash : ℕ
slash = 47

abbrev pub dot : Text
dot = 46 ∷ []

abbrev pub dot_dot : Text
dot_dot = 46 ∷ 46 ∷ []

unfoldable pub text_eq : Text → Text → Bool
text_eq [] [] = true
text_eq [] (d ∷ ds) = false
text_eq (c ∷ cs) [] = false
text_eq (c ∷ cs) (d ∷ ds) = (c == d) && text_eq cs ds

-- `key.lstrip("/")`
unfoldable pub lstrip : Text → Text
lstrip [] = []
lstrip (c ∷ cs) = let rest = lstrip cs in if c == slash then rest else c ∷ cs

unfoldable pub ends_with_slash : Text → Bool
ends_with_slash [] = false
ends_with_slash (c ∷ []) = c == slash
ends_with_slash (c ∷ d ∷ cs) = ends_with_slash (d ∷ cs)

-- The class `[a-zA-Z0-9._/-]`.
abbrev pub is_allowed : ℕ → Bool
is_allowed c =
    (leb 97 c && leb c 122)
    || (leb 65 c && leb c 90)
    || (leb 48 c && leb c 57)
    || (c == 46)
    || (c == 95)
    || (c == slash)
    || (c == 45)

-- `re.match(r"^[...]+$", key)`: `$` also matches before a newline that ends the text.
unfoldable pub matches_class : Text → Bool
matches_class [] = false
matches_class (c ∷ []) = is_allowed c
matches_class (c ∷ d ∷ []) = is_allowed c && (is_allowed d || (d == 10))
matches_class (c ∷ d ∷ e ∷ cs) = is_allowed c && matches_class (d ∷ e ∷ cs)

-- `resolve_key` of the base class.
unfoldable pub valid_key : Text → Result Text
unfolding lstrip ends_with_slash matches_class text_eq
valid_key key =
    let k = lstrip key in
    if ends_with_slash k || text_eq k [] || not (matches_class k) then raised else ok k

-- `path.split("/")`
abbrev pub onto_part : ℕ → List Text → List Text
onto_part c [] = (c ∷ []) ∷ []
onto_part c (p ∷ ps) = (c ∷ p) ∷ ps

unfoldable pub split : Text → List Text
split [] = [] ∷ []
split (c ∷ cs) = let rest = split cs in if c == slash then [] ∷ rest else onto_part c rest

unfoldable pub has_part : Text → List Text → Bool
unfolding text_eq
has_part t [] = false
has_part t (p ∷ ps) = text_eq p t || has_part t ps

-- `posixpath.join`, of a second path that does not start with a slash.
unfoldable pub join : Text → Text → Text
unfolding ends_with_slash text_eq
join base key = if text_eq base [] || ends_with_slash base then base ++ key else base ++ slash ∷ key

abbrev pub is_dropped : Text → Bool
is_dropped p = text_eq p [] || text_eq p dot

abbrev pub top_is_dot_dot : List Text → Bool
top_is_dot_dot [] = false
top_is_dot_dot (p ∷ ps) = text_eq p dot_dot

abbrev pub is_empty : List Text → Bool
is_empty [] = true
is_empty (p ∷ ps) = false

abbrev pub pop : List Text → List Text
pop [] = []
pop (p ∷ ps) = ps

-- The loop of `posixpath.normpath`: the parts so far, the last one first.
unfoldable pub norm_parts : Bool → List Text → List Text → List Text
unfolding text_eq
norm_parts absolute [] acc = acc
norm_parts absolute (p ∷ ps) acc = norm_parts absolute ps (
    if is_dropped p
    then acc
    else (if not (text_eq p dot_dot) || (not absolute && is_empty acc) || top_is_dot_dot acc
        then p ∷ acc
        else pop acc))

-- `"/".join`, of the parts in reverse.
unfoldable pub join_reversed : List Text → Text
join_reversed [] = []
join_reversed (p ∷ []) = p
join_reversed (p ∷ q ∷ ps) = join_reversed (q ∷ ps) ++ slash ∷ p

-- The slashes at the start that `normpath` keeps: two if there are exactly two.
unfoldable pub initial_slashes : Text → Text
initial_slashes [] = []
initial_slashes (c ∷ []) = if c == slash then slash ∷ [] else []
initial_slashes (c ∷ d ∷ []) =
    if c == slash then (if d == slash then slash ∷ slash ∷ [] else slash ∷ []) else []
initial_slashes (c ∷ d ∷ e ∷ cs) =
    if c == slash
    then (if (d == slash) && not (e == slash) then slash ∷ slash ∷ [] else slash ∷ [])
    else []

abbrev pub or_dot : Text → Text
or_dot [] = dot
or_dot (c ∷ cs) = c ∷ cs

unfoldable pub normpath : Text → Text
unfolding split norm_parts join_reversed initial_slashes text_eq
normpath path =
    let start = initial_slashes path in
    or_dot (start ++ join_reversed (norm_parts (not (text_eq start [])) (split path) []))

unfoldable pub starts_with : Text → Text → Bool
starts_with [] t = true
starts_with (c ∷ cs) [] = false
starts_with (c ∷ cs) (d ∷ ds) = (c == d) && starts_with cs ds

-- The base path without the slashes at its end, unless it has nothing else.
unfoldable pub rstrip : Text → Text
unfolding text_eq
rstrip [] = []
rstrip (c ∷ cs) = let rest = rstrip cs in if text_eq rest [] && (c == slash) then [] else c ∷ rest

unfoldable pub base_of : Text → Text
unfolding rstrip text_eq
base_of path = if text_eq (rstrip path) [] then path else rstrip path

module _ (base : Text) where
  unfoldable pub under_base : Text → Result Text
  unfolding has_part split join normpath starts_with
  under_base k =
      let full = normpath (join base k) in
      if has_part dot_dot (split k)
        || has_part dot (split k)
        || not (starts_with (base ++ slash ∷ []) full)
      then raised
      else ok full

  unfoldable pub resolve_key : Text → Result Text
  unfolding valid_key under_base
  resolve_key key = do k ← valid_key key; under_base k

  abbrev pub FileSystem : Type 0
  FileSystem = Text → Option Text

  unfoldable pub store : Text → Text → FileSystem → Result FileSystem
  unfolding resolve_key text_eq
  store key content fs = do
    path ← resolve_key key
    ok (λ q. if text_eq q path then some content else fs q)

  unfoldable pub exists : Text → FileSystem → Result Bool
  unfolding resolve_key
  exists key fs = do
    path ← resolve_key key
    ok (elim (fs path) [ none ↦ false | some content ↦ true ])

  -- `raised` stands for InvalidKeyError and for KeyNotFoundError.
  unfoldable pub read : Text → FileSystem → Result Text
  unfolding resolve_key
  read key fs = do
    path ← resolve_key key
    elim (fs path) [ none ↦ raised | some content ↦ ok content ]

  unfoldable pub delete : Text → FileSystem → Result FileSystem
  unfolding resolve_key text_eq
  delete key fs = do path ← resolve_key key; ok (λ q. if text_eq q path then none else fs q)
