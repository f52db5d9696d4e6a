-- ===== src/Mqtt/Text.antt =====
-- ota-mqtt.cpp: JSON strings, read by parseJsonString and written by appendEscaped.
use alientek.Prelude.{
  ℕ, zero, suc, ◌+◌, ◌-◌, ◌/◌, ◌%◌, Bool, true, false, not, ◌||◌, Option, none, some, [], ◌∷◌, ◌++◌,
  leb, ltb, ◌==◌, if◌then◌else◌, length, drop, Bytes,
}
use alientek.World.{ebadmsg, eoverflow, einval, enospc}
use alientek.Mqtt.Utf8.{
  Parsed, ok, bad, ◌>>=◌, parse_unicode_scalar, append_utf8, append_raw_utf8, utf8_sequence_length,
}

-- The tables `escapes` and `values` of parseJsonEscape.
unfoldable pub escape_value : ℕ → Option ℕ
escape_value c =
    if c == b'"'
    then some b'"'
    else if c == b'\\'
    then some b'\\'
    else if c == b'/'
    then some b'/'
    else if c == b'b'
    then some 8
    else if c == b'f'
    then some 12
    else if c == b'n'
    then some b'\n'
    else if c == b'r'
    then some b'\r'
    else if c == b't'
    then some b'\t'
    else none

-- Lines 231 to 234: the text behind the escape, and the output.
unfoldable pub finish_escape : ℕ → ℕ → Bytes → Bytes → Parsed (Bytes × Bytes)
finish_escape size scalar rest output =
    if scalar == 0 then bad einval else (do o ← append_utf8 size scalar output; ok (rest, o))

-- parseJsonEscape, behind the backslash
unfoldable pub parse_json_escape : ℕ → Bytes → Bytes → Parsed (Bytes × Bytes)
parse_json_escape size [] output = bad ebadmsg
parse_json_escape size (c ∷ s) output = elim (escape_value c) [
  | some scalar ↦ finish_escape size scalar s output
  | none ↦
      if c == b'u'
      then (do (scalar, rest) ← parse_unicode_scalar s; finish_escape size scalar rest output)
      else bad ebadmsg
]

-- The body of the loop of parseJsonString, at the byte `c`.
unfoldable pub string_step : ℕ → ℕ → Bytes → Bytes → Parsed (Bytes × Bytes)
string_step size c s output =
    if ltb c 0x20
    then bad ebadmsg
    else if c == b'\\'
    then parse_json_escape size s output
    else if leb 0x80 c
    then append_raw_utf8 size (c ∷ s) output
    else if leb size (length output + 1)
    then bad eoverflow
    else ok (s, output ++ (c ∷ []))

-- Lines 270 to 275: the text and what is behind the closing quote.
unfoldable pub finish_string : Bytes → Bytes → Parsed (Bytes × Bytes)
finish_string [] rest = bad einval
finish_string (c ∷ output) rest = ok (c ∷ output, rest)

-- The loop of parseJsonString, on fuel: each round takes a byte at least.
unfoldable pub string_loop : ℕ → ℕ → Bytes → Bytes → Parsed (Bytes × Bytes)
string_loop zero size s output = bad ebadmsg
string_loop (suc fuel) size [] output = bad ebadmsg
string_loop (suc fuel) size (c ∷ s) output =
    if c == b'"'
    then finish_string output s
    else (do (rest, o) ← string_step size c s output; string_loop fuel size rest o)

-- parseJsonString, into a buffer of `size` bytes: the text and what is behind it
unfoldable pub parse_json_string : ℕ → Bytes → Parsed (Bytes × Bytes)
parse_json_string size [] = bad ebadmsg
parse_json_string size (c ∷ s) =
    if not (c == b'"') || size == 0 then bad ebadmsg else string_loop (suc (length s)) size s []

-- A hexadecimal digit of "%x".
abbrev pub hex_digit : ℕ → ℕ
hex_digit d = if ltb d 10 then b'0' + d else b'a' + (d - 10)

-- What appendEscaped appends for one byte, with appendControlCharacter.
unfoldable pub escape_json_byte : ℕ → Bytes
escape_json_byte c =
    if c == b'"'
    then b'\\' ∷ b'"' ∷ []
    else if c == b'\\'
    then b'\\' ∷ b'\\' ∷ []
    else if c == b'\n'
    then b'\\' ∷ b'n' ∷ []
    else if c == b'\r'
    then b'\\' ∷ b'r' ∷ []
    else if c == b'\t'
    then b'\\' ∷ b't' ∷ []
    else if ltb c 0x20
    then b'\\' ∷ b'u' ∷ b'0' ∷ b'0' ∷ hex_digit (c / 16) ∷ hex_digit (c % 16) ∷ []
    else c ∷ []

-- appendText, on a JsonBuilder whose buffer has `size` bytes
unfoldable pub append_text : ℕ → Bytes → Bytes → Parsed Bytes
append_text size buffer s =
    if leb size (length buffer + length s) then bad enospc else ok (buffer ++ s)

-- appendEscaped
unfoldable pub append_escaped : ℕ → Bytes → Bytes → Parsed Bytes
append_escaped size buffer [] = ok buffer
append_escaped size buffer (c ∷ s) = do
  b ← append_text size buffer (escape_json_byte c)
  append_escaped size b s

-- The loop of validateUtf8Text; each round takes a byte at least.
unfoldable pub validate_loop : ℕ → Bytes → Bool
validate_loop zero s = true
validate_loop (suc fuel) [] = true
validate_loop (suc fuel) (c ∷ s) = elim (utf8_sequence_length (c ∷ s)) [
  | none ↦ false
  | some n ↦ validate_loop fuel (drop n (c ∷ s))
]

-- validateUtf8Text: whether it returns 0
unfoldable pub validate_utf8_text : Bytes → Bool
validate_utf8_text s = validate_loop (length s) s
