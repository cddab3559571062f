-- ===== src/Dagster/Decimal.antt =====
-- Numbers in texts: Python's `str` of an integer, `int` of a text, and the checkpoint keys of metagraphs
-- in app/src/project/dagster/jobs.py. Digits are those of ASCII.
use sentinel_tower.Prelude.{
  ℕ, zero, suc, ◌+◌, ◌*◌, ◌-◌, ◌/◌, ◌%◌, ◌<◌, ◌≡◌, refl, ap, ◌∙◌, Bool, true, false, ◌&&◌, ◌||◌,
  Option, none, some, [], ◌∷◌, ltb, leb, ◌==◌, if◌then◌else◌, arith, Bool-cases, inl, inr,
  none_absurd,
}
use sentinel_tower.Prelude.Int.{ℤ, pos, negsuc, sub_ℕ}
use sentinel_tower.Storage.{Text, is_space, is_blank}
use sentinel_tower.Dagster.Reader.{lstrip_line, rstrip_line, strip_line}

-- The digits of a number before a text; the fuel counts them.
unfoldable pub digits : (fuel : ℕ) → ℕ → Text → Text
digits zero n rest = rest
digits (suc fuel) n rest =
    let longer = digits fuel (n / 10) ((48 + n % 10) ∷ rest) in
    if ltb n 10 then (48 + n) ∷ rest else longer

-- `str(n)`
unfoldable pub decimal : ℕ → Text
unfolding digits
decimal n = digits (suc n) n []

unfoldable pub print_int : ℤ → Text
unfolding decimal
print_int (pos n) = decimal n
print_int (negsuc n) = 45 ∷ decimal (suc n)

abbrev pub is_digit : ℕ → Bool
is_digit c = leb 48 c && leb c 57

-- Digits, with single underscores between them.
unfoldable pub parse_digits : Text → ℕ → (after_digit : Bool) → Option ℕ
parse_digits [] v after = if after then some v else none
parse_digits (c ∷ cs) v after =
    let next = parse_digits cs (if is_digit c then v * 10 + (c - 48) else v) (is_digit c) in
    if is_digit c || (c == 95 && after) then next else none

abbrev pub positive : Option ℕ → Option ℤ
positive none = none
positive (some n) = some (pos n)

abbrev pub negative : Option ℕ → Option ℤ
negative none = none
negative (some n) = some (sub_ℕ 0 n)

unfoldable pub parse_signed : Text → Option ℤ
unfolding parse_digits
parse_signed [] = none
parse_signed (c ∷ cs) =
    if c == 45
    then negative (parse_digits cs 0 false)
    else if c == 43
    then positive (parse_digits cs 0 false)
    else positive (parse_digits (c ∷ cs) 0 false)

-- `int(text)`; none stands for ValueError.
unfoldable pub parse_int : Text → Option ℤ
unfolding parse_signed lstrip_line rstrip_line
parse_int t = parse_signed (strip_line t)

abbrev pub AllDigits : Text → Type 0
AllDigits [] = Unit
AllDigits (c ∷ cs) = (is_digit c ≡ true) × AllDigits cs

digits-AllDigits : (fuel n : ℕ) (rest : Text) → AllDigits rest → AllDigits (digits fuel n rest)
unfolding digits
digits-AllDigits zero n rest d = d
digits-AllDigits (suc fuel) n rest d = elim (Bool-cases (ltb n 10)) [
  | inl t ↦ rw t (ground arith, d)
  | inr m ↦ rw m (digits-AllDigits fuel (n / 10) ((48 + n % 10) ∷ rest) (ground arith, d))
]

parse_digits-digit :
    (c : ℕ) (cs : Text) (v w : ℕ) (after : Bool)
    → is_digit c ≡ true
    → v * 10 + (c - 48) ≡ w
    → parse_digits (c ∷ cs) v after ≡ parse_digits cs w true
unfolding parse_digits
parse_digits-digit c cs v w after d e = rw (d, e) refl

parse_digits-digits :
    (fuel n : ℕ) (rest : Text) (after : Bool)
    → n < fuel
    → parse_digits (digits fuel n rest) 0 after ≡ parse_digits rest n true
unfolding digits
parse_digits-digits zero n rest after lt = absurd (omega arith)
parse_digits-digits (suc fuel) n rest after lt = elim (Bool-cases (ltb n 10)) [
  | inl t ↦ rw t (parse_digits-digit (48 + n) rest 0 n after (ground arith) (omega arith))
  | inr m ↦ rw m (
      parse_digits-digits fuel (n / 10) ((48 + n % 10) ∷ rest) after (ground arith)
      ∙ parse_digits-digit (48 + n % 10) rest (n / 10) n true (ground arith) (omega arith))
]

-- A text of digits has no space to strip and no sign.
lstrip_line-AllDigits : (t : Text) → AllDigits t → lstrip_line t ≡ t
unfolding lstrip_line
lstrip_line-AllDigits [] d = refl
lstrip_line-AllDigits (c ∷ cs) d = rw (no_space c d.0) refl
  where
    no_space : (c : ℕ) → is_digit c ≡ true → is_space c ≡ false
    no_space c d = ground arith

rstrip_line-AllDigits : (t : Text) → AllDigits t → rstrip_line t ≡ t
unfolding rstrip_line is_blank
rstrip_line-AllDigits [] d = refl
rstrip_line-AllDigits (c ∷ cs) d =
    rw (no_space c d.0) (ap (λ r. c ∷ r) (rstrip_line-AllDigits cs d.1))
  where
    no_space : (c : ℕ) → is_digit c ≡ true → is_space c ≡ false
    no_space c d = ground arith

parse_signed-AllDigits :
    (t : Text) {n : ℕ}
    → AllDigits t
    → parse_digits t 0 false ≡ some n
    → parse_signed t ≡ some (pos n)
unfolding parse_signed parse_digits
parse_signed-AllDigits [] d e = none_absurd e
parse_signed-AllDigits (c ∷ cs) d e =
    let no_minus : (c == 45) ≡ false = ground arith in
    let no_plus : (c == 43) ≡ false = ground arith in rw (no_minus, no_plus) (ap positive e)

decimal-AllDigits : (n : ℕ) → AllDigits (decimal n)
unfolding decimal
decimal-AllDigits n = digits-AllDigits (suc n) n [] tt

parse_digits-decimal : (n : ℕ) → parse_digits (decimal n) 0 false ≡ some n
unfolding decimal parse_digits
parse_digits-decimal n = parse_digits-digits (suc n) n [] false (omega arith)

-- `int(str(z))` is z.
pub parse_int-print_int : (z : ℤ) → parse_int (print_int z) ≡ some z
unfolding parse_int print_int
parse_int-print_int (pos n) =
    let d = decimal-AllDigits n in
    rw (lstrip_line-AllDigits (decimal n) d, rstrip_line-AllDigits (decimal n) d)
      (parse_signed-AllDigits (decimal n) d (parse_digits-decimal n))
parse_int-print_int (negsuc n) =
    minus (decimal (suc n)) (decimal-AllDigits (suc n)) (parse_digits-decimal (suc n))
  where
    minus :
        (t : Text)
        → AllDigits t
        → parse_digits t 0 false ≡ some (suc n)
        → parse_signed (strip_line (45 ∷ t)) ≡ some (negsuc n)
    minus t d e = rw (rstrip_line-AllDigits t d, e) (ap some (ground arith))

-- A printed number has no colon.
abbrev pub NoColon : Text → Type 0
NoColon [] = Unit
NoColon (c ∷ cs) = ((c == 58) ≡ false) × NoColon cs

AllDigits-NoColon : (t : Text) → AllDigits t → NoColon t
AllDigits-NoColon [] d = tt
AllDigits-NoColon (c ∷ cs) d = (ground arith, AllDigits-NoColon cs d.1)

pub print_int-NoColon : (z : ℤ) → NoColon (print_int z)
unfolding print_int
print_int-NoColon (pos n) = AllDigits-NoColon (decimal n) (decimal-AllDigits n)
print_int-NoColon (negsuc n) =
    (refl, AllDigits-NoColon (decimal (suc n)) (decimal-AllDigits (suc n)))
