-- ===== src/State/Int.antt =====
-- Values of the C type int as integers, printed by "%d" and read by "%d" and strtoll.
use mathlib.Core.Option
use alientek.Prelude.CLaws.{IsInLine}
use alientek.Prelude.{
  ℕ, zero, suc, ◌+◌, ◌-◌, ◌*◌, ◌/◌, ◌%◌, ◌≤◌, ◌<◌, true, false, Option, none, some, [], ◌∷◌, ◌++◌,
  ◌≡◌, refl, ap, ◌∙◌, sym, arith, ltb, Bool-cases, inl, inr, ◌==◌, if◌then◌else◌, Bytes, is_digit,
  skip_while, is_space, All, length,
}

-- `negsuc n` is -(n + 1).
pub data ℤ : Type 0 where
  pos : ℕ → ℤ
  negsuc : ℕ → ℤ

-- The decimal digits of `n` in front of `rest`. Each round divides by ten, so `n` rounds are enough.
unfoldable pub digits_from : ℕ → ℕ → Bytes → Bytes
digits_from zero n rest = (b'0' + n % 10) ∷ rest
digits_from (suc fuel) n rest =
    let more = digits_from fuel (n / 10) ((b'0' + n % 10) ∷ rest) in
    if ltb n 10 then (b'0' + n % 10) ∷ rest else more

unfoldable pub print_nat : ℕ → Bytes
unfolding digits_from
print_nat n = digits_from n n []

-- "%d"
unfoldable pub print_int : ℤ → Bytes
unfolding print_nat
print_int (pos n) = print_nat n
print_int (negsuc n) = b'-' ∷ print_nat (suc n)

-- The digits at the front of a text, onto a value read so far, and what is behind them.
unfoldable pub read_digits : ℕ → Bytes → ℕ × Bytes
read_digits acc [] = (acc, [])
read_digits acc (c ∷ s) =
    let more = read_digits (10 * acc + (c - b'0')) s in if is_digit c then more else (acc, c ∷ s)

-- At least one digit.
read_unsigned : Bytes → Option (ℕ × Bytes)
read_unsigned [] = none
read_unsigned (c ∷ s) = if is_digit c then some (read_digits 0 (c ∷ s)) else none

negate : ℕ → ℤ
negate zero = pos 0
negate (suc n) = negsuc n

as_pos : ℕ × Bytes → ℤ × Bytes
as_pos (n, s) = (pos n, s)

as_neg : ℕ × Bytes → ℤ × Bytes
as_neg (n, s) = (negate n, s)

scan_signed : Bytes → Option (ℤ × Bytes)
scan_signed [] = none
scan_signed (c ∷ s) =
    if c == b'-'
    then Option.map as_neg (read_unsigned s)
    else if c == b'+'
    then Option.map as_pos (read_unsigned s)
    else Option.map as_pos (read_unsigned (c ∷ s))

-- What "%d" takes from a text: blanks, a sign, digits. A value out of the range of int, for which C
-- leaves the result open, is kept as it stands.
unfoldable pub scan_int : Bytes → Option (ℤ × Bytes)
unfolding read_digits read_unsigned skip_while negate scan_signed as_pos as_neg
scan_int s = scan_signed (skip_while is_space s)

-- What is read back from digits in front of a text that does not go on with one.
abbrev pub StopsDigits : Bytes → Type 0
StopsDigits [] = Unit
StopsDigits (c ∷ s) = is_digit c ≡ false

pub digits_from-append :
    (f n : ℕ) (rest s : Bytes) → digits_from f n rest ++ s ≡ digits_from f n (rest ++ s)
unfolding digits_from
digits_from-append zero n rest s = refl
digits_from-append (suc f) n rest s =
    ground (arith, digits_from-append f (n / 10) ((b'0' + n % 10) ∷ rest) s)

read_digits-digit :
    (acc n : ℕ) (rest : Bytes)
    → n < 10
    → read_digits acc ((b'0' + n) ∷ rest) ≡ read_digits (10 * acc + n) rest
unfolding read_digits is_digit
read_digits-digit acc n rest h = ground arith

read_digits-digits_from :
    (f n : ℕ) (rest : Bytes) → n ≤ f → read_digits 0 (digits_from f n rest) ≡ read_digits n rest
unfolding digits_from
read_digits-digits_from zero n rest h = ground (arith, read_digits-digit 0 (n % 10) rest)
read_digits-digits_from (suc f) n rest h = ground (
  arith,
  read_digits-digit 0 (n % 10) rest,
  read_digits-digit (n / 10) (n % 10) rest,
  read_digits-digits_from f (n / 10) ((b'0' + n % 10) ∷ rest),
)

is_digit_mod : (n : ℕ) → is_digit (b'0' + n % 10) ≡ true
unfolding is_digit
is_digit_mod n = ground arith

-- The first digit of a number.
pub digits_from-head :
    (f n : ℕ) (rest : Bytes)
    → (c : ℕ) × (s : Bytes) × (digits_from f n rest ≡ c ∷ s) × (is_digit c ≡ true)
unfolding digits_from
digits_from-head zero n rest = (b'0' + n % 10, rest, refl, is_digit_mod n)
digits_from-head (suc f) n rest = elim (Bool-cases (ltb n 10)) [
  | inl h ↦ rw h (b'0' + n % 10, rest, refl, is_digit_mod n)
  | inr h ↦ rw h (digits_from-head f (n / 10) ((b'0' + n % 10) ∷ rest))
]

read_digits_stop : (n : ℕ) (s : Bytes) → StopsDigits s → read_digits n s ≡ (n, s)
unfolding read_digits
read_digits_stop n [] h = refl
read_digits_stop n (c ∷ s) h = rw h

pub read_digits-print_nat :
    (n : ℕ) (s : Bytes) → StopsDigits s → read_digits 0 (print_nat n ++ s) ≡ (n, s)
unfolding print_nat
read_digits-print_nat n s h =
    rw digits_from-append (read_digits-digits_from n n s (omega arith) ∙ read_digits_stop n s h)

read_unsigned-print_nat :
    (n : ℕ) (s : Bytes) → StopsDigits s → read_unsigned (print_nat n ++ s) ≡ some (n, s)
unfolding read_unsigned print_nat
read_unsigned-print_nat n s h =
    let (c, t, e, d) = digits_from-head n n s in
    let r =
      sym (ap (read_digits 0) e)
      ∙ (read_digits-digits_from n n s (omega arith) ∙ read_digits_stop n s h) in
    rw (digits_from-append, e) (rw d (ap some r))

scan_int_digit :
    (c : ℕ) (t : Bytes)
    → is_digit c ≡ true
    → scan_int (c ∷ t) ≡ Option.map as_pos (read_unsigned (c ∷ t))
unfolding scan_signed scan_int is_digit is_space
scan_int_digit c t h = ground arith

read_nat : (n : ℕ) (s : Bytes) → StopsDigits s → scan_int (print_nat n ++ s) ≡ some (pos n, s)
unfolding print_nat as_pos
read_nat n s h =
    let (c, t, e, d) = digits_from-head n n s in
    let p : print_nat n ++ s ≡ c ∷ t = digits_from-append n n [] s ∙ e in
    rw p (
      scan_int_digit c t d
      ∙ ap (Option.map as_pos) (sym (ap read_unsigned p) ∙ read_unsigned-print_nat n s h))

-- "%d" reads back what "%d" printed, in front of any text that does not go on with a digit.
pub scan_int-print_int :
    (i : ℤ) (s : Bytes) → StopsDigits s → scan_int (print_int i ++ s) ≡ some (i, s)
unfolding is_space
scan_int-print_int (pos n) s h = unfold print_int in read_nat n s h
scan_int-print_int (negsuc n) s h =
    unfold print_int scan_int in ap (Option.map as_neg) (read_unsigned-print_nat (suc n) s h)

-- The range of a 32-bit int.
abbrev pub IsInt : ℤ → Type 0
IsInt (pos n) = n < 0x80000000
IsInt (negsuc n) = n < 0x80000000

abbrev pow10 : ℕ → ℕ
pow10 zero = 1
pow10 (suc k) = 10 * pow10 k

length-digits_from :
    (f k n : ℕ) (rest : Bytes)
    → n < pow10 (suc k)
    → length (digits_from f n rest) ≤ suc k + length rest
unfolding digits_from
length-digits_from zero k n rest h = omega arith
length-digits_from (suc f) zero n rest h = ground arith
length-digits_from (suc f) (suc k) n rest h =
    ground (arith, length-digits_from f k (n / 10) ((b'0' + n % 10) ∷ rest))

digits_from-IsInLine :
    (f n : ℕ) (rest : Bytes) → All IsInLine rest → All IsInLine (digits_from f n rest)
unfolding digits_from
digits_from-IsInLine zero n rest h = ground arith
digits_from-IsInLine (suc f) n rest h =
    ground (arith, digits_from-IsInLine f (n / 10) ((b'0' + n % 10) ∷ rest))

-- An int takes at most 11 characters, and none of them ends a line.
pub print_int_line : (i : ℤ) → IsInt i → (length (print_int i) ≤ 11) × All IsInLine (print_int i)
unfolding print_int
print_int_line (pos n) h =
    (omega (arith, length-digits_from n 9 n []), digits_from-IsInLine n n [] tt)
print_int_line (negsuc n) h = (
  omega (arith, length-digits_from (suc n) 9 (suc n) []),
  ((refl, refl), digits_from-IsInLine (suc n) (suc n) [] tt),
)

pub scan_int_blank : (s : Bytes) → scan_int (32 ∷ s) ≡ scan_int s
unfolding scan_int is_space
scan_int_blank s = refl
