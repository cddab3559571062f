-- ===== src/Json.antt =====
-- Python values as the SDK decodes them and the JSON columns hold them, and the operations on them
-- that the program uses: `dict.get`, truth, iteration, comparison with a text. Where Python raises an
-- exception (`.get` on what is no dict, a loop over what cannot be iterated) the result is `raised`.
use Prim.Native.String.{String}
use text.Mathlib.Text.{◌==◌ as str_eq}
use sentinel_tower.Prelude.{
  ◌≡◌, refl, subst, ◌⊎◌, inl, inr, Bool, true, false, not, ◌&&◌, Option, none, some, List, [], ◌∷◌,
  if◌then◌else◌,
}
use sentinel_tower.Prelude.Int.{ℤ, pos, eqb_ℤ}

-- A float is carried by the text that prints it; the program does no arithmetic on it here.
mutual
  pub data Json : Type 0 where
    null : Json
    bool : Bool → Json
    int : ℤ → Json
    real : String → Json
    str : String → Json
    arr : Items → Json
    tup : Items → Json
    obj : Fields → Json

  pub data Items : Type 0 where
    nil : Items
    cons : Json → Items → Items

  pub data Fields : Type 0 where
    end : Fields
    field : String → Json → Fields → Fields

-- What a call gives: a value, or an exception.
pub data Result (A : Type 0) : Type 0 where
  ok : A → Result A
  raised : Result A

infixl 5 ◌>>=◌
unfoldable pub ◌>>=◌ : {A B : Type 0} → Result A → (A → Result B) → Result B
ok a >>= f = f a
raised >>= f = raised

abbrev pub elements : Items → List Json
elements nil = []
elements (cons x xs) = x ∷ elements xs

abbrev pub keys : Fields → List Json
keys end = []
keys (field k v fs) = str k ∷ keys fs

abbrev pub characters : String → List Json
characters String.[] = []
characters (String.◌∷◌ c s) = str (String.◌∷◌ c String.[]) ∷ characters s

unfoldable pub lookup : String → Fields → Option Json
lookup k end = none
lookup k (field j v fs) = if str_eq j k then some v else lookup k fs

abbrev pub or_value : Option Json → Json → Json
or_value none d = d
or_value (some v) d = v

-- `value.get(k, d)`
unfoldable pub get_default : Json → String → Json → Result Json
unfolding lookup
get_default (obj fs) k d = ok (or_value (lookup k fs) d)
get_default _ k d = raised

-- `value.get(k)`
unfoldable pub get : Json → String → Result Json
unfolding get_default
get v k = get_default v k null

-- `for x in value`
unfoldable pub iterate : Json → Result (List Json)
iterate (arr xs) = ok (elements xs)
iterate (tup xs) = ok (elements xs)
iterate (obj fs) = ok (keys fs)
iterate (str s) = ok (characters s)
iterate _ = raised

-- `value == "..."`
unfoldable pub is_text : Json → String → Bool
is_text (str s) t = str_eq s t
is_text _ t = false

abbrev pub is_null : Json → Bool
is_null null = true
is_null _ = false

abbrev pub is_dict : Json → Bool
is_dict (obj fs) = true
is_dict _ = false

-- `bool(value)`
unfoldable pub truthy : Json → Bool
truthy null = false
truthy (bool b) = b
truthy (int n) = not (eqb_ℤ n (pos 0))
truthy (real s) = not (str_eq s "0.0") && not (str_eq s "-0.0")
truthy (str s) = not (str_eq s "")
truthy (arr nil) = false
truthy (tup nil) = false
truthy (obj end) = false
truthy _ = true

pub Result-cases : {A : Type 0} (r : Result A) → (r ≡ raised) ⊎ ((a : A) × (r ≡ ok a))
Result-cases raised = inl refl
Result-cases (ok a) = inr (a, refl)

pub ok_injective : {A : Type 0} {a b : A} → ok a ≡ ok b → a ≡ b
ok_injective e = cc

pub raised_absurd {ℓ} : {A : Type 0} {C : Type ℓ} {a : A} → ◌≡◌ {A = Result A} raised (ok a) → C
raised_absurd e = cc

-- What holds of a result, if there is one.
pub record AfterOk {A : Type 0} (P : A → Type 0) (r : Result A) : Type 0 where
  pub after : (a : A) → r ≡ ok a → P a

pub AfterOk-ok : {A : Type 0} {P : A → Type 0} {a : A} → P a → AfterOk P (ok a)
AfterOk-ok {P = P} h = record { after = λ b e. subst P (ok_injective e) h }

pub AfterOk-raised : {A : Type 0} {P : A → Type 0} → AfterOk P raised
AfterOk-raised = record { after = λ b e. raised_absurd e }

pub AfterOk-bind :
    {A B : Type 0} {Q : A → Type 0} {P : B → Type 0} {r : Result A} {f : A → Result B}
    → AfterOk Q r
    → ((a : A) → Q a → AfterOk P (f a))
    → AfterOk P (r >>= f)
unfolding ◌>>=◌
AfterOk-bind {A = A} {Q = Q} {P = P} {r = r} {f = f} h k = go r h.after
  where
    go : (r : Result A) → ((a : A) → r ≡ ok a → Q a) → AfterOk P (r >>= f)
    go raised h = AfterOk-raised
    go (ok a) h = k a (h a refl)

-- There is a result.
abbrev pub Succeeds : {A : Type 0} → Result A → Type 0
Succeeds {A} r = (a : A) × (r ≡ ok a)

pub Succeeds-bind :
    {A B : Type 0} {r : Result A} {f : A → Result B}
    → Succeeds r
    → ((a : A) → Succeeds (f a))
    → Succeeds (r >>= f)
unfolding ◌>>=◌
Succeeds-bind {f = f} h k = rw h.1 (k h.0)
