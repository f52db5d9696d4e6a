-- ===== src/Mqtt/Strings.antt =====
-- parseJsonString on the strings that appendEscaped writes.
use alientek.Prelude.CLaws.{take_append, drop_append}
use alientek.Prelude.{
  ℕ, zero, suc, ◌+◌, ◌*◌, ◌/◌, ◌%◌, ◌≤◌, ◌<◌, true, false, ◌||◌, some, [], ◌∷◌, ◌++◌, ◌≡◌, ◌≢◌,
  refl, ap, ◌∙◌, inl, inr, arith, ltb, ◌==◌, Bool-cases, length, length-append, All, append_assoc,
  append-nil, Bytes,
}
use alientek.World.{enospc}
use alientek.Mqtt.Utf8.{
  Parsed, ok, bad, hex_digit_value, hex_digits, parse_unicode_code_unit, parse_unicode_scalar,
  encode_utf8, append_utf8, append_raw_utf8,
}
use alientek.Mqtt.Utf8.Exact.{IsScalar, utf8_sequence_length-encode_utf8}
use alientek.Mqtt.Text.{
  escape_value, finish_escape, parse_json_escape, string_step, string_loop, finish_string,
  parse_json_string, hex_digit, escape_json_byte,
}

-- Text in UTF-8 without U+0000.
pub data IsUtf8 : Bytes → Type 0 where
  nil : {v : Bytes} → v ≡ [] → IsUtf8 v
  scalar : {v t : Bytes} (s : ℕ) → IsScalar s → v ≡ encode_utf8 s ++ t → IsUtf8 t → IsUtf8 v

-- What appendEscaped writes, in front of a rest.
abbrev pub json_escaped : Bytes → Bytes → Bytes
json_escaped [] rest = rest
json_escaped (c ∷ v) rest = escape_json_byte c ++ json_escaped v rest

hex_digit_back : (d : ℕ) → d < 16 → hex_digit_value (hex_digit d) ≡ some d
unfolding hex_digit_value
hex_digit_back d h = ground arith

hex_digits_step :
    (n value d : ℕ) (s : Bytes)
    → d < 16
    → hex_digits (suc n) value (hex_digit d ∷ s) ≡ hex_digits n (16 * value + d) s
unfolding hex_digits
hex_digits_step n value d s h = rw (hex_digit_back d h, hex_digits)

hex_digits_end : (n c : ℕ) (s : Bytes) → n ≡ c → hex_digits 0 n s ≡ ok (c, s)
unfolding hex_digits
hex_digits_end n c s e = ap (λ (k : ℕ). ok (k, s)) e

control_unit :
    (c : ℕ) (s : Bytes)
    → c < 0x20
    → parse_unicode_code_unit (b'0' ∷ b'0' ∷ hex_digit (c / 16) ∷ hex_digit (c % 16) ∷ s)
      ≡ ok (c, s)
unfolding parse_unicode_code_unit
control_unit c s h =
    let e : 16 * (16 * (16 * (16 * 0 + 0) + 0) + c / 16) + c % 16 ≡ c = omega arith in
    let low = hex_digit (c % 16) ∷ s in
    let high = hex_digit (c / 16) ∷ low in
    hex_digits_step 3 0 0 (b'0' ∷ high) (omega arith)
    ∙ hex_digits_step 2 (16 * 0 + 0) 0 high (omega arith)
    ∙ hex_digits_step 1 (16 * (16 * 0 + 0) + 0) (c / 16) low (omega arith)
    ∙ hex_digits_step 0 (16 * (16 * (16 * 0 + 0) + 0) + c / 16) (c % 16) s (omega arith)
    ∙ hex_digits_end _ c s e

control_scalar :
    (c : ℕ) (s : Bytes)
    → c < 0x20
    → parse_unicode_scalar (b'0' ∷ b'0' ∷ hex_digit (c / 16) ∷ hex_digit (c % 16) ∷ s) ≡ ok (c, s)
unfolding parse_unicode_scalar
control_scalar c s h = rw (control_unit c s h, parse_unicode_scalar) (ground arith)

finish_ascii :
    (size c : ℕ) (t output : Bytes)
    → 0 < c
    → c < 0x80
    → length output + 1 < size
    → finish_escape size c t output ≡ ok (t, output ++ (c ∷ []))
unfolding finish_escape append_utf8 encode_utf8
finish_ascii size c t output z a room = ground arith

-- One round at a byte Below 0x80 that was escaped.
abbrev first_step : ℕ → Bytes → Bytes → Parsed (Bytes × Bytes)
first_step size [] output = bad enospc
first_step size (c ∷ s) output = string_step size c s output

-- A byte Below 0x80, escaped: it does not begin with a quote, and it is read back.
ascii_step :
    (size c : ℕ) (t output : Bytes)
    → 0 < c
    → c < 0x80
    → length output + 1 < size
    → ((c == b'"' || c == b'\\' || c == b'\n' || c == b'\r' || c == b'\t') ≡ false)
    → first_step size (escape_json_byte c ++ t) output ≡ ok (t, output ++ (c ∷ []))
unfolding string_step escape_json_byte parse_json_escape escape_value
ascii_step size c t output z a room plain = elim (Bool-cases (ltb c 0x20)) [
  | inl e ↦ ground (arith, control_scalar c t, finish_ascii size c t output)
  | inr e ↦ ground arith
]

special_step :
    (size c : ℕ) (t output : Bytes)
    → length output + 1 < size
    → ((c == b'"' || c == b'\\' || c == b'\n' || c == b'\r' || c == b'\t') ≡ true)
    → first_step size (escape_json_byte c ++ t) output ≡ ok (t, output ++ (c ∷ []))
unfolding string_step escape_json_byte parse_json_escape escape_value
special_step size c t output room special = ground (
  arith,
  finish_ascii size b'"' t output,
  finish_ascii size b'\\' t output,
  finish_ascii size b'\n' t output,
  finish_ascii size b'\r' t output,
  finish_ascii size b'\t' t output,
)

-- The text goes on with something else than the closing quote.
abbrev IsOpen : Bytes → Type 0
IsOpen [] = ⊥
IsOpen (c ∷ s) = (c == b'"') ≡ false

ascii_IsOpen : (c : ℕ) (t : Bytes) → IsOpen (escape_json_byte c ++ t)
unfolding escape_json_byte
ascii_IsOpen c t = ground arith

string_loop_step :
    (f size : ℕ) (s output : Bytes) {rest o : Bytes}
    → IsOpen s
    → first_step size s output ≡ ok (rest, o)
    → string_loop (suc f) size s output ≡ string_loop f size rest o
unfolding string_loop
string_loop_step f size [] output h e = absurd h
string_loop_step f size (c ∷ s) output h e = rw (h, e)

string_loop_ascii :
    (f size c : ℕ) (t output : Bytes)
    → 0 < c
    → c < 0x80
    → length output + 1 < size
    → string_loop (suc f) size (escape_json_byte c ++ t) output
      ≡ string_loop f size t (output ++ (c ∷ []))
string_loop_ascii f size c t output z a room =
    string_loop_step f size (escape_json_byte c ++ t) output (ascii_IsOpen c t)
      (elim (Bool-cases (c == b'"' || c == b'\\' || c == b'\n' || c == b'\r' || c == b'\t')) [
        | inl e ↦ special_step size c t output room e
        | inr e ↦ ascii_step size c t output z a room e
      ])

length-escape_json_byte : (c : ℕ) → 0 < length (escape_json_byte c)
unfolding escape_json_byte
length-escape_json_byte c = ground arith

append_raw-encode_utf8 :
    (size s : ℕ) (t output : Bytes)
    → IsScalar s
    → length output + length (encode_utf8 s) < size
    → append_raw_utf8 size (encode_utf8 s ++ t) output ≡ ok (t, output ++ encode_utf8 s)
unfolding append_raw_utf8
append_raw-encode_utf8 size s t output h room =
    rw (utf8_sequence_length-encode_utf8 s t h, append_raw_utf8)
      (rw (take_append (encode_utf8 s) t, drop_append (encode_utf8 s) t) (ground arith))

-- A byte of an encoding above ASCII.
abbrev IsHigh : ℕ → Type 0
IsHigh c = 0x80 ≤ c

encode_utf8-IsHigh : (s : ℕ) → 0x80 ≤ s → All IsHigh (encode_utf8 s)
unfolding encode_utf8
encode_utf8-IsHigh s h = ground arith

escape_json_byte-high : (c : ℕ) → IsHigh c → escape_json_byte c ≡ c ∷ []
unfolding escape_json_byte
escape_json_byte-high c h = ground arith

json_escaped-high :
    (v t rest : Bytes) → All IsHigh v → json_escaped (v ++ t) rest ≡ v ++ json_escaped t rest
json_escaped-high [] t rest h = refl
json_escaped-high (c ∷ v) t rest h =
    rw (escape_json_byte-high c h.0) (ap (◌∷◌ c) (json_escaped-high v t rest h.1))

high_step :
    (f size c : ℕ) (v t output : Bytes) {rest o : Bytes}
    → IsHigh c
    → append_raw_utf8 size (c ∷ v ++ t) output ≡ ok (rest, o)
    → string_loop (suc f) size (c ∷ v ++ t) output ≡ string_loop f size rest o
unfolding string_loop string_step
high_step f size c v t output h e = ground arith

string_loop_bytes :
    (f size : ℕ) (b t output : Bytes)
    → b ≢ []
    → All IsHigh b
    → append_raw_utf8 size (b ++ t) output ≡ ok (t, output ++ b)
    → string_loop (suc f) size (b ++ t) output ≡ string_loop f size t (output ++ b)
string_loop_bytes f size [] t output ne a r = absurd (ne refl)
string_loop_bytes f size (c ∷ v) t output ne a r = high_step f size c v t output a.0 r

encode_utf8-ne-nil : (s : ℕ) → encode_utf8 s ≢ []
unfolding encode_utf8
encode_utf8-ne-nil s = ground arith

pub length-encode_utf8 : (s : ℕ) → 0 < length (encode_utf8 s)
unfolding encode_utf8
length-encode_utf8 s = ground arith

encode_utf8_ascii : (s : ℕ) → s < 0x80 → encode_utf8 s ≡ s ∷ []
unfolding encode_utf8
encode_utf8_ascii s h = ground arith

-- One round of the loop at the escaped form of a scalar.
string_loop_scalar :
    (f size s : ℕ) (t rest output : Bytes)
    → IsScalar s
    → length output + length (encode_utf8 s) < size
    → string_loop (suc f) size (json_escaped (encode_utf8 s ++ t) rest) output
      ≡ string_loop f size (json_escaped t rest) (output ++ encode_utf8 s)
string_loop_scalar f size s t rest output k room = elim (Bool-cases (ltb s 0x80)) [
  | inl low ↦
      let e = encode_utf8_ascii s (ground arith) in
      rw e (
        string_loop_ascii f size s (json_escaped t rest) output k.0 (ground arith)
          (omega (arith, ap (length {A = ℕ}) e)))
  | inr high ↦
      let a = encode_utf8-IsHigh s (ground arith) in
      rw (json_escaped-high (encode_utf8 s) t rest a) (
        string_loop_bytes f size (encode_utf8 s) (json_escaped t rest) output (encode_utf8-ne-nil s)
          a (append_raw-encode_utf8 size s (json_escaped t rest) output k room))
]

string_loop_utf8 :
    (f size : ℕ) (rest output : Bytes) {v : Bytes}
    → IsUtf8 v
    → length v < f
    → length output + length v < size
    → string_loop f size (json_escaped v (b'"' ∷ rest)) output ≡ finish_string (output ++ v) rest
string_loop_utf8 zero size rest output u fuel room = absurd (omega arith)
string_loop_utf8 (suc f) size rest output (nil e) fuel room =
    rw (e, append-nil) (unfold string_loop in refl)
string_loop_utf8 (suc f) size rest output (scalar {t} s k e u) fuel room =
    let n = length-append (encode_utf8 s) t in
    let m = ap (length {A = ℕ}) e in
    let p = length-encode_utf8 s in
    rw e (
      string_loop_scalar f size s t (b'"' ∷ rest) output k (omega (arith, n, m))
      ∙ string_loop_utf8 f size rest (output ++ encode_utf8 s) u (omega (arith, n, m, p))
          (omega (arith, n, m, length-append output (encode_utf8 s)))
      ∙ rw (append_assoc output (encode_utf8 s) t))

length-json_escaped : (v rest : Bytes) → length v + length rest ≤ length (json_escaped v rest)
length-json_escaped [] rest = omega arith
length-json_escaped (c ∷ v) rest = omega (
  arith,
  length-append (escape_json_byte c) (json_escaped v rest),
  length-json_escaped v rest,
  length-escape_json_byte c,
)

-- A text in UTF-8 that is not empty and fits the buffer is read back by parseJsonString from the
-- string in which appendEscaped wrote it, control characters included, and the reader stops right
-- behind the closing quote.
pub parse_json_string-json_escaped :
    (size : ℕ) (v rest : Bytes)
    → IsUtf8 v
    → v ≢ []
    → length v < size
    → parse_json_string size (b'"' ∷ json_escaped v (b'"' ∷ rest)) ≡ ok (v, rest)
unfolding parse_json_string
parse_json_string-json_escaped size [] rest u ne b = absurd (ne refl)
parse_json_string-json_escaped size (c ∷ v) rest u ne b =
    let whole = json_escaped (c ∷ v) (b'"' ∷ rest) in
    let n = length-json_escaped (c ∷ v) (b'"' ∷ rest) in
    let read =
      string_loop_utf8 (suc (length whole)) size rest [] u (omega (arith, n)) (omega arith) in
    let e : (size == 0) ≡ false = ground arith in rw e (unfold finish_string in read)
