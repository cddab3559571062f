-- ===== src/Extrinsics/Sanitize.antt =====
-- `_sanitize_json` of app/src/apps/extrinsics/block_tasks.py.
use Prim.Native.Char.{code}
use Prim.Native.String.{String}
use sentinel_tower.Prelude.{◌≡◌, ◌≢◌, refl, ap, Bool-cases, inl, inr, arith, if◌then◌else◌, ◌==◌}
use sentinel_tower.Json.{
  Json, null, bool, int, real, str, arr, tup, obj, Items, nil, cons, Fields, end, field,
}

-- `obj.replace("\x00", "")`
unfoldable pub remove_nul : String → String
remove_nul String.[] = String.[]
remove_nul (String.◌∷◌ c s) = if code c == 0 then remove_nul s else String.◌∷◌ c (remove_nul s)

unfoldable mutual
  pub sanitize_json : Json → Json
  sanitize_json null = null
  sanitize_json (bool b) = bool b
  sanitize_json (int n) = int n
  sanitize_json (real s) = real s
  sanitize_json (str s) = str (remove_nul s)
  sanitize_json (arr xs) = arr (sanitize_items xs)
  sanitize_json (tup xs) = tup xs
  sanitize_json (obj fs) = obj (sanitize_fields fs)

  pub sanitize_items : Items → Items
  sanitize_items nil = nil
  sanitize_items (cons x xs) = cons (sanitize_json x) (sanitize_items xs)

  pub sanitize_fields : Fields → Fields
  sanitize_fields end = end
  sanitize_fields (field k v fs) = field k (sanitize_json v) (sanitize_fields fs)

abbrev pub NoNul : String → Type 0
NoNul String.[] = Unit
NoNul (String.◌∷◌ c s) = (code c ≢ 0) × NoNul s

-- No text of the value holds a NUL: in lists and dict values at any depth, but neither in the keys of
-- dicts nor inside tuples.
abbrev mutual
  pub IsClean : Json → Type 0
  IsClean (str s) = NoNul s
  IsClean (arr xs) = AreClean xs
  IsClean (obj fs) = HasClean fs
  IsClean _ = Unit

  pub AreClean : Items → Type 0
  AreClean nil = Unit
  AreClean (cons x xs) = IsClean x × AreClean xs

  pub HasClean : Fields → Type 0
  HasClean end = Unit
  HasClean (field k v fs) = IsClean v × HasClean fs

remove_nul-NoNul : (s : String) → NoNul (remove_nul s)
unfolding remove_nul
remove_nul-NoNul String.[] = tt
remove_nul-NoNul (String.◌∷◌ c s) = elim (Bool-cases (code c == 0)) [
  | inl e ↦ rw e (remove_nul-NoNul s)
  | inr e ↦ rw e ((λ z. ground arith), remove_nul-NoNul s)
]

remove_nul_clean : (s : String) → NoNul s → remove_nul s ≡ s
unfolding remove_nul
remove_nul_clean String.[] h = refl
remove_nul_clean (String.◌∷◌ c s) h = elim (Bool-cases (code c == 0)) [
  | inl e ↦ absurd (h.0 (ground arith))
  | inr e ↦ rw e (ap (λ t. String.◌∷◌ c t) (remove_nul_clean s h.1))
]

mutual
  unfolding sanitize_json

  json_clean : (v : Json) → IsClean (sanitize_json v)
  json_clean null = tt
  json_clean (bool b) = tt
  json_clean (int n) = tt
  json_clean (real s) = tt
  json_clean (str s) = remove_nul-NoNul s
  json_clean (arr xs) = items_clean xs
  json_clean (tup xs) = tt
  json_clean (obj fs) = fields_clean fs

  items_clean : (xs : Items) → AreClean (sanitize_items xs)
  items_clean nil = tt
  items_clean (cons x xs) = (json_clean x, items_clean xs)

  fields_clean : (fs : Fields) → HasClean (sanitize_fields fs)
  fields_clean end = tt
  fields_clean (field k v fs) = (json_clean v, fields_clean fs)

mutual
  unfolding sanitize_json

  json_same : (v : Json) → IsClean v → sanitize_json v ≡ v
  json_same null h = refl
  json_same (bool b) h = refl
  json_same (int n) h = refl
  json_same (real s) h = refl
  json_same (str s) h = ap str (remove_nul_clean s h)
  json_same (arr xs) h = ap arr (items_same xs h)
  json_same (tup xs) h = refl
  json_same (obj fs) h = ap obj (fields_same fs h)

  items_same : (xs : Items) → AreClean xs → sanitize_items xs ≡ xs
  items_same nil h = refl
  items_same (cons x xs) h = cc (json_same x h.0, items_same xs h.1)

  fields_same : (fs : Fields) → HasClean fs → sanitize_fields fs ≡ fs
  fields_same end h = refl
  fields_same (field k v fs) h = cc (json_same v h.0, fields_same fs h.1)

-- Sanitizing leaves no NUL in the texts of lists and dict values at any depth, and a second pass
-- changes nothing.
pub sanitize_json-IsClean :
    (v : Json) → IsClean (sanitize_json v) × (sanitize_json (sanitize_json v) ≡ sanitize_json v)
sanitize_json-IsClean v = (json_clean v, json_same (sanitize_json v) (json_clean v))
