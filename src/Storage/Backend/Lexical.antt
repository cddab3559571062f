-- ===== src/Storage/Backend/Lexical.antt =====
-- Where a key is stored, and what is read back.
use sentinel_tower.Prelude.{
  ◌==◌, ◌≡◌, refl, sym, ap, ◌∙◌, subst, inl, inr, Bool, true, false, not, ◌||◌, Option, none, some,
  List, [], ◌∷◌, ◌++◌, filter, if◌then◌else◌, Bool-cases,
}
use sentinel_tower.Json.{ok, raised, ◌>>=◌, Result-cases, ok_injective, raised_absurd}
use sentinel_tower.Storage.{Text}
use sentinel_tower.Storage.Backend.{
  slash, dot, dot_dot, text_eq, valid_key, onto_part, split, has_part, join, ends_with_slash,
  is_dropped, norm_parts, join_reversed, initial_slashes, or_dot, normpath, starts_with, under_base,
  resolve_key, FileSystem, store, read,
}

-- What is stored under a key is read back under every key of the same path, and a key of another path
-- reads what it read before.
pub read-store :
    (base key other : Text) (content : Text) (fs fs' : FileSystem base) (path q : Text)
    → store base key content fs ≡ ok fs'
    → resolve_key base key ≡ ok path
    → resolve_key base other ≡ ok q
    → read base other fs' ≡ (if text_eq q path then ok content else read base other fs)
unfolding store read ◌>>=◌
read-store base key other content fs fs' path q e f g =
    subst
      (λ files. read base other files ≡ (if text_eq q path then ok content else read base other fs))
      (ok_injective (rw (f, store) at e)) (rw (g, read) (either (text_eq q path) (fs q)))
  where
    either :
        (b : Bool) (o : Option Text)
        → (elim (if b then some content else o) [ none ↦ raised | some t ↦ ok t ])
          ≡ (if b then ok content else elim o [ none ↦ raised | some t ↦ ok t ])
    either true o = refl
    either false o = refl

-- The first list in reverse, before the second.
abbrev pub reverse_onto : {A : Type 0} → List A → List A → List A
reverse_onto [] ys = ys
reverse_onto (x ∷ xs) ys = reverse_onto xs (x ∷ ys)

-- A part that a path keeps.
abbrev pub is_kept : Text → Bool
is_kept p = not (is_dropped p)

both_false : (x y : Bool) → (x || y) ≡ false → (x ≡ false) × (y ≡ false)
both_false true y e = (e, cc)
both_false false y e = (refl, e)

norm_parts-filter :
    (absolute : Bool) (ps acc : List Text)
    → has_part dot_dot ps ≡ false
    → norm_parts absolute ps acc ≡ reverse_onto (filter is_kept ps) acc
unfolding norm_parts has_part
norm_parts-filter absolute [] acc h = refl
norm_parts-filter absolute (p ∷ ps) acc h = elim (Bool-cases (is_dropped p)) [
  | inl t ↦ rw t (norm_parts-filter absolute ps acc (rest h))
  | inr f ↦ rw (f, first h) (norm_parts-filter absolute ps (p ∷ acc) (rest h))
]
  where
    first : (text_eq p dot_dot || has_part dot_dot ps) ≡ false → text_eq p dot_dot ≡ false
    first e = (both_false (text_eq p dot_dot) (has_part dot_dot ps) e).0

    rest : (text_eq p dot_dot || has_part dot_dot ps) ≡ false → has_part dot_dot ps ≡ false
    rest e = (both_false (text_eq p dot_dot) (has_part dot_dot ps) e).1

split-cons : (t : Text) → (p : Text) × (ps : List Text) × (split t ≡ p ∷ ps)
unfolding split
split-cons [] = ([], [], refl)
split-cons (c ∷ cs) = elim (Bool-cases (c == slash)) [
  | inl t ↦ ([], split cs, rw t refl)
  | inr f ↦ let rest = split-cons cs in (c ∷ rest.0, rest.1, rw f (ap (onto_part c) rest.2))
]

split-append : (xs ys : Text) → split (xs ++ slash ∷ ys) ≡ split xs ++ split ys
unfolding split
split-append [] ys = refl
split-append (c ∷ cs) ys =
    let rest = split-cons cs in
    elim (Bool-cases (c == slash)) [
      | inl t ↦ rw (t, split-append cs ys) refl
      | inr f ↦ rw (f, split-append cs ys, rest.2) refl
    ]

has_part-append :
    (t : Text) (ps qs : List Text)
    → has_part t ps ≡ false
    → has_part t qs ≡ false
    → has_part t (ps ++ qs) ≡ false
unfolding has_part
has_part-append t [] qs h k = k
has_part-append t (p ∷ ps) qs h k =
    let e = both_false (text_eq p t) (has_part t ps) h in
    rw (e.0, has_part-append t ps qs e.1 k) refl

-- The path of a key: the parts of the base and of the key one after the other.
abbrev pub path_of : Text → Text → Text
path_of base k = or_dot (
    initial_slashes (base ++ slash ∷ k)
    ++ join_reversed (reverse_onto (filter is_kept (split base ++ split k)) []))

not-false : (b : Bool) → not b ≡ false → b ≡ true
not-false true e = refl
not-false false e = sym e

module _ (base : Text) (nonempty : text_eq base [] ≡ false)
    (no_slash : ends_with_slash base ≡ false)
    (no_dots : has_part dot_dot (split base) ≡ false) where
  normpath-join :
      (k : Text) → has_part dot_dot (split k) ≡ false → normpath (join base k) ≡ path_of base k
  unfolding normpath join
  normpath-join k h =
      rw
        (
          nonempty,
          no_slash,
          split-append base k,
          norm_parts-filter (not (text_eq (initial_slashes (base ++ slash ∷ k)) []))
              (split base ++ split k) [] (has_part-append dot_dot (split base) (split k) no_dots h),
        )
        refl

  under_base_lexical :
      (k path : Text)
      → under_base base k ≡ ok path
      → (path ≡ path_of base k) × (starts_with (base ++ slash ∷ []) path ≡ true)
  unfolding under_base
  under_base_lexical k path e = go (bad refused) refl
    where
      full : Text
      full = normpath (join base k)

      refused : Bool
      refused = has_part dot_dot (split k) || has_part dot (split k)

      bad : Bool → Bool
      bad b = b || not (starts_with (base ++ slash ∷ []) full)

      go :
          (b : Bool)
          → bad refused ≡ b
          → (path ≡ path_of base k) × (starts_with (base ++ slash ∷ []) path ≡ true)
      go true t = raised_absurd (rw (t, under_base) at e)
      go false t =
          let parts = both_false refused (not (starts_with (base ++ slash ∷ []) full)) t in
          let same : full ≡ path = ok_injective (rw (t, under_base) at e) in
          (
            sym same ∙ normpath-join k (both_false _ _ parts.0).0,
            subst (λ p. starts_with (base ++ slash ∷ []) p ≡ true) same (not-false _ parts.1),
          )

-- If the base path is not empty, does not end with a slash and has no part "..", then a key that is
-- accepted stands for the path with the parts of the base and then those of the key, without the empty
-- ones and the ".": no part of the base is climbed out of. The path starts with the base and a slash.
pub resolve_key_lexical :
    (base key path : Text)
    → text_eq base [] ≡ false
    → ends_with_slash base ≡ false
    → has_part dot_dot (split base) ≡ false
    → resolve_key base key ≡ ok path
    → (k : Text) × (valid_key key ≡ ok k)
      × (path ≡ path_of base k)
      × (starts_with (base ++ slash ∷ []) path ≡ true)
unfolding resolve_key ◌>>=◌
resolve_key_lexical base key path nonempty no_slash no_dots e =
    elim (Result-cases (valid_key key)) [
      | inl f ↦ raised_absurd (rw (f, resolve_key) at e)
      | inr (k, f) ↦
          let found =
            under_base_lexical base nonempty no_slash no_dots k path (rw (f, resolve_key) at e) in
          (k, f, found.0, found.1)
    ]
