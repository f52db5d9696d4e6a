-- ===== src/Mqtt/Utf8.antt =====
-- ota-mqtt.cpp, lines 39 to 204: code units, UTF-8 sequences and their checks. A pointer is the text
-- from it on, and `at` reads the terminator behind the end. Bits are shifted and masked by `/` and
-- `%`, and `|` joins fields that do not overlap, so it is `+`.
pub mod Exact
use alientek.Prelude.{
  ℕ, zero, suc, ◌+◌, ◌-◌, ◌*◌, ◌/◌, ◌%◌, ◌<◌, Bool, true, false, not, ◌&&◌, ◌||◌, Option, none,
  some, List, [], ◌∷◌, ◌++◌, leb, ltb, within, ◌==◌, if◌then◌else◌, length, take, drop, Bytes,
}
use alientek.World.{Errno, ebadmsg, eoverflow}

-- A value, or the errno of the failure: what the functions give that return -1 with errno set.
pub data Parsed {ℓ} (A : Type ℓ) : Type ℓ where
  ok : A → Parsed A
  bad : Errno → Parsed A

infixl 5 ◌>>=◌
abbrev pub ◌>>=◌ {ℓ κ} : {A : Type ℓ} {B : Type κ} → Parsed A → (A → Parsed B) → Parsed B
ok a >>= f = f a
bad e >>= f = bad e

-- text[i]
abbrev pub at : ℕ → Bytes → ℕ
at i [] = 0
at zero (c ∷ s) = c
at (suc i) (c ∷ s) = at i s

-- hexDigitValue; `none` is -1
unfoldable pub hex_digit_value : ℕ → Option ℕ
hex_digit_value c =
    if within b'0' b'9' c
    then some (c - b'0')
    else if within b'a' b'f' c
    then some (c - b'a' + 10)
    else if within b'A' b'F' c
    then some (c - b'A' + 10)
    else none

-- The loop of parseUnicodeCodeUnit, over `n` digits.
unfoldable pub hex_digits : ℕ → ℕ → Bytes → Parsed (ℕ × Bytes)
unfolding hex_digit_value
hex_digits zero value s = ok (value, s)
hex_digits (suc n) value [] = bad ebadmsg
hex_digits (suc n) value (c ∷ s) = elim (hex_digit_value c) [
  | none ↦ bad ebadmsg
  | some digit ↦ hex_digits n (16 * value + digit) s
]

-- parseUnicodeCodeUnit: the unit, and the text behind it
unfoldable pub parse_unicode_code_unit : Bytes → Parsed (ℕ × Bytes)
parse_unicode_code_unit s = hex_digits 4 0 s

-- Lines 85 to 94: the second half of a pair of surrogates.
unfoldable pub parse_low : ℕ → Bytes → Parsed (ℕ × Bytes)
parse_low high s =
    if ltb 0xdbff high || not (at 0 s == b'\\') || not (at 1 s == b'u') then bad ebadmsg else (do
      (low, rest) ← parse_unicode_code_unit (drop 2 s)
      if within 0xdc00 0xdfff low
          then ok (0x10000 + (high - 0xd800) * 1024 + (low - 0xdc00), rest)
          else bad ebadmsg)

-- parseUnicodeScalar
unfoldable pub parse_unicode_scalar : Bytes → Parsed (ℕ × Bytes)
unfolding parse_low
parse_unicode_scalar s = do
  (high, rest) ← parse_unicode_code_unit s
  if ltb high 0xd800 || ltb 0xdfff high then ok (high, rest) else parse_low high rest

-- encodeUtf8
unfoldable pub encode_utf8 : ℕ → Bytes
encode_utf8 scalar =
    if leb scalar 0x7f
    then scalar ∷ []
    else if leb scalar 0x7ff
    then (0xc0 + scalar / 64) ∷ (0x80 + scalar % 64) ∷ []
    else if leb scalar 0xffff
    then (0xe0 + scalar / 4096) ∷ (0x80 + scalar / 64 % 64) ∷ (0x80 + scalar % 64) ∷ []
    else (0xf0 + scalar / 262144)
      ∷ (0x80 + scalar / 4096 % 64)
      ∷ (0x80 + scalar / 64 % 64)
      ∷ (0x80 + scalar % 64)
      ∷ []

-- isUtf8Continuation
abbrev pub is_utf8_continuation : ℕ → Bool
is_utf8_continuation c = within 0x80 0xbf c

-- isValidUtf8ThreeByte
unfoldable pub is_valid_utf8_three_byte : Bytes → Bool
is_valid_utf8_three_byte s =
    not (at 1 s == 0)
    && is_utf8_continuation (at 2 s)
    && (at 0 s == 0xe0 && within 0xa0 0xbf (at 1 s)
        || at 0 s == 0xed && within 0x80 0x9f (at 1 s)
        || (within 0xe1 0xec (at 0 s) || within 0xee 0xef (at 0 s))
          && is_utf8_continuation (at 1 s))

-- isValidUtf8FourByte
unfoldable pub is_valid_utf8_four_byte : Bytes → Bool
is_valid_utf8_four_byte s =
    not (at 1 s == 0)
    && not (at 2 s == 0)
    && (at 0 s == 0xf0 && within 0x90 0xbf (at 1 s)
        || at 0 s == 0xf4 && within 0x80 0x8f (at 1 s)
        || within 0xf1 0xf3 (at 0 s) && is_utf8_continuation (at 1 s))
    && is_utf8_continuation (at 2 s)
    && is_utf8_continuation (at 3 s)

-- utf8SequenceLength; `none` is the failure with EBADMSG
unfoldable pub utf8_sequence_length : Bytes → Option ℕ
utf8_sequence_length s =
    if leb (at 0 s) 0x7f
    then some 1
    else if within 0xc2 0xdf (at 0 s) && is_utf8_continuation (at 1 s)
    then some 2
    else if within 0xe0 0xef (at 0 s) && is_valid_utf8_three_byte s
    then some 3
    else if within 0xf0 0xf4 (at 0 s) && is_valid_utf8_four_byte s
    then some 4
    else none

-- appendUtf8, onto an output of `outputSize` bytes
unfoldable pub append_utf8 : ℕ → ℕ → Bytes → Parsed Bytes
append_utf8 size scalar output =
    if leb size (length output + length (encode_utf8 scalar))
    then bad eoverflow
    else ok (output ++ encode_utf8 scalar)

-- appendRawUtf8: the text behind the sequence, and the output
unfoldable pub append_raw_utf8 : ℕ → Bytes → Bytes → Parsed (Bytes × Bytes)
append_raw_utf8 size s output = elim (utf8_sequence_length s) [
  | none ↦ bad ebadmsg
  | some n ↦
      if leb size (length output + n) then bad eoverflow else ok (drop n s, output ++ take n s)
]
