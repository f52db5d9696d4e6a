-- ===== src/Mqtt/Sound.antt =====
-- The texts that parseJsonString gives.
use mathlib.Core.Path.{subst}
use alientek.Prelude.{
  ℕ, zero, suc, ◌+◌, ◌-◌, ◌*◌, ◌≤◌, ◌<◌, not, ◌||◌, some, [], ◌∷◌, ◌++◌, ◌≡◌, ◌≢◌, refl, sym, inl,
  inr, arith, leb, ltb, within, ◌==◌, Bool-cases, Option-cases, if◌then◌else◌, length,
  length-append, length-take-le, take, drop, append_assoc, append-nil, Bytes,
}
use alientek.World.{ebadmsg}
use alientek.Mqtt.Utf8.{
  Parsed, ok, bad, ◌>>=◌, at, hex_digit_value, hex_digits, parse_unicode_code_unit, parse_low,
  parse_unicode_scalar, encode_utf8, append_utf8, append_raw_utf8, utf8_sequence_length,
}
use alientek.Mqtt.Utf8.Exact.{IsScalar, decode_utf8, utf8_sequence_length_exact}
use alientek.Mqtt.Text.{
  escape_value, finish_escape, parse_json_escape, string_step, finish_string, string_loop,
  parse_json_string,
}
use alientek.Mqtt.Strings.{IsUtf8, nil, scalar}

-- A property of the value, if there is one.
abbrev pub OnOk : {A : Type 0} → (A → Type 0) → Parsed A → Type 0
OnOk P (ok a) = P a
OnOk P (bad e) = Unit

pub bind-OnOk :
    {A B : Type 0} (Q : A → Type 0) (P : B → Type 0) (m : Parsed A) (f : A → Parsed B)
    → OnOk Q m
    → ((a : A) → Q a → OnOk P (f a))
    → OnOk P (m >>= f)
bind-OnOk Q P (ok a) f h k = k a h
bind-OnOk Q P (bad e) f h k = tt

abbrev pow16 : ℕ → ℕ
pow16 zero = 1
pow16 (suc n) = 16 * pow16 n

hex_digit_value_bound : (c : ℕ) {d : ℕ} → hex_digit_value c ≡ some d → d < 16
unfolding hex_digit_value
hex_digit_value_bound c h = ground arith

hex_digits-OnOk :
    (n value b : ℕ) (s : Bytes) → value < b → OnOk (λ r. r.0 < b * pow16 n) (hex_digits n value s)
unfolding hex_digits
hex_digits-OnOk zero value b s h = omega arith
hex_digits-OnOk (suc n) value b [] h = tt
hex_digits-OnOk (suc n) value b (c ∷ s) h = elim (Option-cases (hex_digit_value c)) [
  | inl e ↦ rw (e, hex_digits) tt
  | inr (d, e) ↦
      let k = hex_digit_value_bound c e in
      let q : 16 * b * pow16 n ≡ b * (16 * pow16 n) = omega arith in
      rw (e, hex_digits)
        (subst (λ m. OnOk (λ r. r.0 < m) (hex_digits n (16 * value + d) s)) q
          (hex_digits-OnOk n (16 * value + d) (16 * b) s (omega arith)))
]

-- What parseUnicodeScalar gives is U+0000 or a scalar.
abbrev IsUnit : ℕ × Bytes → Type 0
IsUnit r = r.0 ≢ 0 → IsScalar r.0

code_unit-OnOk : (s : Bytes) → OnOk (λ r. r.0 < 0x10000) (parse_unicode_code_unit s)
unfolding parse_unicode_code_unit
code_unit-OnOk s = hex_digits-OnOk 4 0 1 s (omega arith)

low_range :
    (high : ℕ) (r : ℕ × Bytes)
    → 0xd800 ≤ high
    → high ≤ 0xdbff
    → OnOk IsUnit (
        if within 0xdc00 0xdfff r.0
        then ok (0x10000 + (high - 0xd800) * 1024 + (r.0 - 0xdc00), r.1)
        else bad ebadmsg)
low_range high r h k = elim (Bool-cases (within 0xdc00 0xdfff r.0)) [
  | inl e ↦ rw e (λ z. ground arith)
  | inr e ↦ rw e tt
]

parse_low-OnOk : (high : ℕ) (s : Bytes) → 0xd800 ≤ high → OnOk IsUnit (parse_low high s)
unfolding parse_low
parse_low-OnOk high s h =
    elim (Bool-cases (ltb 0xdbff high || not (at 0 s == b'\\') || not (at 1 s == b'u'))) [
      | inl e ↦ rw e tt
      | inr e ↦ rw e (
          bind-OnOk (λ r. r.0 < 0x10000) IsUnit (parse_unicode_code_unit (drop 2 s)) _
            (code_unit-OnOk (drop 2 s)) (λ r k. low_range high r h (ground arith)))
    ]

scalar_range :
    (r : ℕ × Bytes)
    → r.0 < 0x10000
    → OnOk IsUnit (if ltb r.0 0xd800 || ltb 0xdfff r.0 then ok (r.0, r.1) else parse_low r.0 r.1)
scalar_range r k = elim (Bool-cases (ltb r.0 0xd800 || ltb 0xdfff r.0)) [
  | inl e ↦ rw e (λ z. ground arith)
  | inr e ↦ rw e (parse_low-OnOk r.0 r.1 (ground arith))
]

parse_unicode_scalar-OnOk : (s : Bytes) → OnOk IsUnit (parse_unicode_scalar s)
unfolding parse_unicode_scalar
parse_unicode_scalar-OnOk s =
    bind-OnOk (λ r. r.0 < 0x10000) IsUnit (parse_unicode_code_unit s) _ (code_unit-OnOk s)
      scalar_range

IsUtf8-append : {v : Bytes} (s : ℕ) → IsUtf8 v → IsScalar s → IsUtf8 (v ++ encode_utf8 s)
IsUtf8-append s (nil e) k = scalar s k (rw (e, append-nil)) (nil refl)
IsUtf8-append s (scalar {t} c h e u) k =
    scalar c h (rw e (append_assoc (encode_utf8 c) t (encode_utf8 s))) (IsUtf8-append s u k)

-- What the output of parseJsonString is at any time.
abbrev IsOutput : ℕ → Bytes → Type 0
IsOutput size o = IsUtf8 o × (length o < size)

abbrev Keeps : ℕ → Bytes × Bytes → Type 0
Keeps size r = IsOutput size r.1

append_utf8-OnOk :
    (size s : ℕ) (output : Bytes)
    → IsScalar s
    → IsOutput size output
    → OnOk (IsOutput size) (append_utf8 size s output)
unfolding append_utf8
append_utf8-OnOk size s output k h =
    elim (Bool-cases (leb size (length output + length (encode_utf8 s)))) [
      | inl e ↦ rw e tt
      | inr e ↦
          let b : length output + length (encode_utf8 s) < size = ground arith in
          rw e (IsUtf8-append s h.0 k, omega (arith, length-append output (encode_utf8 s)))
    ]

finish_escape-OnOk :
    (size s : ℕ) (rest output : Bytes)
    → (s ≢ 0 → IsScalar s)
    → IsOutput size output
    → OnOk (Keeps size) (finish_escape size s rest output)
unfolding finish_escape
finish_escape-OnOk size s rest output k h = elim (Bool-cases (s == 0)) [
  | inl e ↦ rw e tt
  | inr e ↦ rw e (
      bind-OnOk (IsOutput size) (Keeps size) (append_utf8 size s output) _
        (append_utf8-OnOk size s output (k (ground arith)) h) (λ o j. j))
]

escape_value-IsScalar : (c : ℕ) {s : ℕ} → escape_value c ≡ some s → IsScalar s
unfolding escape_value
escape_value-IsScalar c e = ground arith

parse_json_escape-OnOk :
    (size : ℕ) (s output : Bytes)
    → IsOutput size output
    → OnOk (Keeps size) (parse_json_escape size s output)
unfolding parse_json_escape
parse_json_escape-OnOk size [] output h = tt
parse_json_escape-OnOk size (c ∷ s) output h = elim (Option-cases (escape_value c)) [
  | inr (v, e) ↦
      rw (e, parse_json_escape)
        (finish_escape-OnOk size v s output (λ z. escape_value-IsScalar c e) h)
  | inl e ↦
      rw (e, parse_json_escape)
        (elim (Bool-cases (c == b'u')) [
          | inl u ↦ rw u (
              bind-OnOk IsUnit (Keeps size) (parse_unicode_scalar s) _ (parse_unicode_scalar-OnOk s)
                (λ r k. finish_escape-OnOk size r.0 r.1 output k h))
          | inr u ↦ rw u tt
        ])
]

append_raw_utf8-OnOk :
    (size : ℕ) (s output : Bytes)
    → at 0 s ≢ 0
    → IsOutput size output
    → OnOk (Keeps size) (append_raw_utf8 size s output)
unfolding append_raw_utf8
append_raw_utf8-OnOk size s output z h = elim (Option-cases (utf8_sequence_length s)) [
  | inl e ↦ rw (e, append_raw_utf8) tt
  | inr (n, e) ↦
      rw (e, append_raw_utf8)
        (elim (Bool-cases (leb size (length output + n))) [
          | inl full ↦ rw full tt
          | inr room ↦
              let (k, q) = utf8_sequence_length_exact s n z e in
              let b : length output + n < size = ground arith in
              rw room (
                subst (λ t. IsUtf8 (output ++ t)) (sym q) (IsUtf8-append (decode_utf8 n s) h.0 k),
                omega (arith, length-append output (take n s), length-take-le n s),
              )
        ])
]

ascii_IsUtf8 : (c : ℕ) {v : Bytes} → 0x20 ≤ c → c < 0x80 → IsUtf8 v → IsUtf8 (v ++ (c ∷ []))
unfolding encode_utf8
ascii_IsUtf8 c {v} a b u =
    let e : encode_utf8 c ≡ c ∷ [] = ground arith in
    subst (λ t. IsUtf8 (v ++ t)) e (IsUtf8-append c u (ground arith))

string_step-OnOk :
    (size c : ℕ) (s output : Bytes)
    → IsOutput size output
    → OnOk (Keeps size) (string_step size c s output)
unfolding string_step
string_step-OnOk size c s output h = elim (Bool-cases (ltb c 0x20)) [
  | inl e1 ↦ rw e1 tt
  | inr e1 ↦ rw e1 (elim (Bool-cases (c == b'\\')) [
    | inl e2 ↦ rw e2 (parse_json_escape-OnOk size s output h)
    | inr e2 ↦ rw e2 (elim (Bool-cases (leb 0x80 c)) [
      | inl e3 ↦ rw e3 (append_raw_utf8-OnOk size (c ∷ s) output (ground arith) h)
      | inr e3 ↦ rw e3 (elim (Bool-cases (leb size (length output + 1))) [
        | inl e4 ↦ rw e4 tt
        | inr e4 ↦
            let b : length output + 1 < size = ground arith in
            rw e4 (
              ascii_IsUtf8 c (ground arith) (ground arith) h.0,
              omega (arith, length-append output (c ∷ [])),
            )
      ])
    ])
  ])
]

-- What parseJsonString gives in a buffer of `size` bytes.
abbrev pub IsText : ℕ → Bytes → Type 0
IsText size v = IsUtf8 v × (v ≢ []) × (length v < size)

abbrev pub GivesText : ℕ → Bytes × Bytes → Type 0
GivesText size r = IsText size r.0

finish_string-OnOk :
    (size : ℕ) (output rest : Bytes)
    → IsOutput size output
    → OnOk (GivesText size) (finish_string output rest)
unfolding finish_string
finish_string-OnOk size [] rest h = tt
finish_string-OnOk size (c ∷ output) rest h = (h.0, λ e. cc, h.1)

string_loop-OnOk :
    (f size : ℕ) (s output : Bytes)
    → IsOutput size output
    → OnOk (GivesText size) (string_loop f size s output)
unfolding string_loop
string_loop-OnOk zero size s output h = tt
string_loop-OnOk (suc f) size [] output h = tt
string_loop-OnOk (suc f) size (c ∷ s) output h = elim (Bool-cases (c == b'"')) [
  | inl e ↦ rw e (finish_string-OnOk size output s h)
  | inr e ↦ rw e (
      bind-OnOk (Keeps size) (GivesText size) (string_step size c s output) _
        (string_step-OnOk size c s output h) (λ r k. string_loop-OnOk f size r.0 r.1 k))
]

-- A text that parseJsonString gives is UTF-8 without U+0000, it is not empty, and it is shorter than
-- the buffer, whatever the JSON is.
pub parse_json_string-IsText :
    (size : ℕ) (s : Bytes) → OnOk (GivesText size) (parse_json_string size s)
unfolding parse_json_string
parse_json_string-IsText size [] = tt
parse_json_string-IsText size (c ∷ s) = elim (Bool-cases (not (c == b'"') || size == 0)) [
  | inl e ↦ rw e tt
  | inr e ↦ rw e (string_loop-OnOk (suc (length s)) size s [] (nil refl, ground arith))
]
