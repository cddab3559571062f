-- ===== src/Metagraph/Amounts.antt =====
-- `_to_rao` of app/src/apps/metagraph/services/metagraph_sync_service.py and relation_bulk_syncer.py,
-- with what Python's decimal numbers do there: a product is rounded to 28 digits, half to even, and
-- `int` cuts off the places after the point.
use Prim.Native.Nat.{◌^◌}
use native.Mathlib.Nat.{pow-succ', div-div-eq-div-mul, div-mul-le_self, lt-div-mul-add}
use sentinel_tower.Prelude.{
  ℕ, zero, suc, ◌*◌, ◌/◌, ◌%◌, ◌≤◌, ◌<◌, ◌==◌, ltb, ◌≡◌, refl, sym, ap, subst, Bool, true, false,
  ◌||◌, ◌&&◌, inl, inr, Bool-cases, Option, none, some, if◌then◌else◌, arith,
}
use sentinel_tower.Prelude.Int.{ℤ, pos, negsuc, sub_ℕ, ◌+ℤ◌}
use sentinel_tower.Json.{Result, ok, raised}

-- What `Decimal(str(value))` is: a sign, digits and a power of ten, or infinite or no number, or an
-- exception on a text that is no number.
pub data Amount : Type 0 where
  decimal : Bool → ℕ → ℤ → Amount
  not_finite : Amount
  malformed : Amount

abbrev pub tao_to_rao : ℕ
tao_to_rao = 1000000000

-- Numbers below this have at most 28 digits.
abbrev pub precision_limit : ℕ
precision_limit = 10000000000000000000000000000

-- How many digits a number has beyond 28.
unfoldable pub excess_digits : ℕ → ℕ → ℕ
excess_digits zero n = 0
excess_digits (suc fuel) n = elim (ltb n precision_limit) [
  | true ↦ 0
  | false ↦ suc (excess_digits fuel (n / 10))
]

-- n / d, rounded half to even.
unfoldable pub half_even : ℕ → ℕ → ℕ
half_even n d =
    let q = n / d in
    let r = n % d in if ltb d (2 * r) || ((2 * r == d) && (q % 2 == 1)) then suc q else q

-- `int` of digits and a power of ten.
unfoldable pub truncate : ℕ → ℤ → ℕ
truncate n (pos e) = n * 10 ^ e
truncate n (negsuc e) = n / 10 ^ suc e

unfoldable pub signed : Bool → ℕ → ℤ
signed true n = sub_ℕ 0 n
signed false n = pos n

-- The product of the digits by 10^9, to 28 digits, as a whole number.
unfoldable pub rao_digits : ℕ → ℤ → ℕ
unfolding truncate half_even excess_digits
rao_digits c e =
    let k = excess_digits (c * tao_to_rao) (c * tao_to_rao) in
    truncate (half_even (c * tao_to_rao) (10 ^ k)) (e +ℤ pos k)

unfoldable pub to_rao : Option Amount → Result ℤ
unfolding rao_digits signed
to_rao none = ok (pos 0)
to_rao (some (decimal negative c e)) = ok (signed negative (rao_digits c e))
to_rao (some not_finite) = raised
to_rao (some malformed) = raised

-- The fuel is enough: what is left has at most 28 digits.
pub excess_digits-enough : (fuel n : ℕ) → n ≤ fuel → n / 10 ^ excess_digits fuel n < precision_limit
unfolding excess_digits
excess_digits-enough zero n h = omega arith
excess_digits-enough (suc fuel) n h = elim (Bool-cases (ltb n precision_limit)) [
  | inl t ↦ rw (t, excess_digits) (ground arith)
  | inr f ↦
      rw (f, excess_digits)
        (subst (λ d. n / d < precision_limit) (sym (pow-succ' 10 (excess_digits fuel (n / 10))))
          (subst (λ q. q < precision_limit)
            (div-div-eq-div-mul n 10 (10 ^ excess_digits fuel (n / 10)))
            (excess_digits-enough fuel (n / 10) (omega arith))))
]

no_excess : (fuel n : ℕ) → n < precision_limit → excess_digits fuel n ≡ 0
unfolding excess_digits
no_excess zero n h = refl
no_excess (suc fuel) n h = ground arith

half_even_one : (n : ℕ) → half_even n 1 ≡ n
unfolding half_even
half_even_one n = ground arith

ten_positive : (e : ℕ) → 0 < 10 ^ e
ten_positive zero = omega arith
ten_positive (suc e) = omega (arith, ten_positive e)

negsuc_add_zero : (e : ℕ) → negsuc e +ℤ pos 0 ≡ negsuc e
unfolding ◌+ℤ◌
negsuc_add_zero e = ground arith

rao_digits_exact :
    (c e : ℕ)
    → c * tao_to_rao < precision_limit
    → rao_digits c (negsuc e) ≡ (c * tao_to_rao) / 10 ^ suc e
unfolding rao_digits truncate
rao_digits_exact c e h =
    rw
      (
        no_excess (c * tao_to_rao) (c * tao_to_rao) h,
        half_even_one (c * tao_to_rao),
        negsuc_add_zero e,
      )
      refl

-- An amount of TAO with places after the point, and at most 19 digits, is cut off to whole rao, towards
-- zero: it is never rounded.
pub to_rao-floor :
    (negative : Bool) (c e : ℕ)
    → c * tao_to_rao < precision_limit
    → (n : ℕ) × (to_rao (some (decimal negative c (negsuc e))) ≡ ok (signed negative n))
      × (n * 10 ^ suc e ≤ c * tao_to_rao)
      × (c * tao_to_rao < suc n * 10 ^ suc e)
unfolding to_rao
to_rao-floor negative c e h = (
  (c * tao_to_rao) / 10 ^ suc e,
  ap (λ n. ok (signed negative n)) (rao_digits_exact c e h),
  div-mul-le_self (c * tao_to_rao) (10 ^ suc e),
  omega (arith, lt-div-mul-add {a = c * tao_to_rao} (ten_positive (suc e))),
)
