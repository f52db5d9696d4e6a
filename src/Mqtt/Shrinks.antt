-- ===== src/Mqtt/Shrinks.antt =====
-- The lengths of the texts that the JSON parser leaves.
use alientek.Prelude.{
  ℕ, zero, suc, ◌+◌, ◌≤◌, ◌<◌, not, ◌||◌, some, [], ◌∷◌, ◌≡◌, refl, inl, inr, arith, leb, ltb, ◌==◌,
  Bool-cases, Option-cases, length, drop, Bytes,
}
use alientek.Prelude.CLaws.{length-drop-le}
use alientek.Mqtt.Utf8.{
  Parsed, ok, bad, ◌>>=◌, at, hex_digit_value, hex_digits, parse_unicode_code_unit, parse_low,
  parse_unicode_scalar, append_utf8, append_raw_utf8, utf8_sequence_length,
}
use alientek.Mqtt.Text.{
  escape_value, finish_escape, parse_json_escape, string_step, finish_string, string_loop,
  parse_json_string,
}
use alientek.Mqtt.Sound.{OnOk, bind-OnOk}

-- The rest of the text is no longer than `n`.
abbrev pub RestIn {ℓ} : {A : Type ℓ} → ℕ → A × Bytes → Type 0
RestIn n r = length r.1 ≤ n

abbrev pub FrontIn : ℕ → Bytes × Bytes → Type 0
FrontIn n r = length r.0 ≤ n

hex_digits_shrinks : (n value : ℕ) (s : Bytes) → OnOk (RestIn (length s)) (hex_digits n value s)
unfolding hex_digits
hex_digits_shrinks zero value s = omega arith
hex_digits_shrinks (suc n) value [] = tt
hex_digits_shrinks (suc n) value (c ∷ s) = elim (Option-cases (hex_digit_value c)) [
  | inl e ↦ rw (e, hex_digits) tt
  | inr (d, e) ↦ rw (e, hex_digits) (weaken (hex_digits n _ s) (hex_digits_shrinks n _ s))
]
  where
    weaken :
        (m : Parsed (ℕ × Bytes)) → OnOk (RestIn (length s)) m → OnOk (RestIn (suc (length s))) m
    weaken (ok r) h = omega arith
    weaken (bad e) h = tt

weaken_rest : {n m : ℕ} (p : Parsed (ℕ × Bytes)) → n ≤ m → OnOk (RestIn n) p → OnOk (RestIn m) p
weaken_rest (ok r) b h = omega arith
weaken_rest (bad e) b h = tt

weaken_text : {n m : ℕ} (p : Parsed (Bytes × Bytes)) → n ≤ m → OnOk (RestIn n) p → OnOk (RestIn m) p
weaken_text (ok r) b h = omega arith
weaken_text (bad e) b h = tt

unit_shrinks : (s : Bytes) → OnOk (RestIn (length s)) (parse_unicode_code_unit s)
unfolding parse_unicode_code_unit
unit_shrinks s = hex_digits_shrinks 4 0 s

low_shrinks : (high : ℕ) (s : Bytes) → OnOk (RestIn (length s)) (parse_low high s)
unfolding parse_low
low_shrinks high s =
    elim (Bool-cases (ltb 0xdbff high || not (at 0 s == b'\\') || not (at 1 s == b'u'))) [
      | inl e ↦ rw e tt
      | inr e ↦ rw e (
          bind-OnOk (RestIn (length s)) (RestIn (length s)) (parse_unicode_code_unit (drop 2 s)) _
            (weaken_rest (parse_unicode_code_unit (drop 2 s)) (length-drop-le 2 s)
              (unit_shrinks (drop 2 s)))
            (λ r k. ground arith))
    ]

scalar_shrinks : (s : Bytes) → OnOk (RestIn (length s)) (parse_unicode_scalar s)
unfolding parse_unicode_scalar
scalar_shrinks s =
    bind-OnOk (RestIn (length s)) (RestIn (length s)) (parse_unicode_code_unit s) _ (unit_shrinks s)
      λ r k. elim (Bool-cases (ltb r.0 0xd800 || ltb 0xdfff r.0)) [
        | inl e ↦ rw e k
        | inr e ↦ rw e (weaken_rest (parse_low r.0 r.1) k (low_shrinks r.0 r.1))
      ]

finish_escape_shrinks :
    (size n : ℕ) (rest output : Bytes) (m : ℕ)
    → length rest ≤ m
    → OnOk (FrontIn m) (finish_escape size n rest output)
unfolding finish_escape
finish_escape_shrinks size n rest output m h = elim (Bool-cases (n == 0)) [
  | inl e ↦ rw e tt
  | inr e ↦ rw e (elim_append (append_utf8 size n output))
]
  where
    elim_append : (a : Parsed Bytes) → OnOk (FrontIn m) (a >>= λ o. ok (rest, o))
    elim_append (ok o) = h
    elim_append (bad e) = tt

escape_shrinks :
    (size : ℕ) (s output : Bytes) → OnOk (FrontIn (length s)) (parse_json_escape size s output)
unfolding parse_json_escape
escape_shrinks size [] output = tt
escape_shrinks size (c ∷ s) output = elim (Option-cases (escape_value c)) [
  | inr (v, e) ↦
      rw (e, parse_json_escape)
        (finish_escape_shrinks size v s output (suc (length s)) (omega arith))
  | inl e ↦
      rw (e, parse_json_escape)
        (elim (Bool-cases (c == b'u')) [
          | inl u ↦ rw u (
              bind-OnOk (RestIn (length s)) (FrontIn (suc (length s))) (parse_unicode_scalar s) _
                (scalar_shrinks s)
                (λ r k. finish_escape_shrinks size r.0 r.1 output (suc (length s)) (omega arith)))
          | inr u ↦ rw u tt
        ])
]

length_pos : (s : Bytes) (n : ℕ) → utf8_sequence_length s ≡ some n → 0 < n
unfolding utf8_sequence_length
length_pos s n h = ground arith

raw_shrinks :
    (size c : ℕ) (s output : Bytes)
    → OnOk (FrontIn (length s)) (append_raw_utf8 size (c ∷ s) output)
unfolding append_raw_utf8
raw_shrinks size c s output = elim (Option-cases (utf8_sequence_length (c ∷ s))) [
  | inl e ↦ rw (e, append_raw_utf8) tt
  | inr (zero, e) ↦ absurd (omega (arith, length_pos (c ∷ s) 0 e))
  | inr (suc n, e) ↦
      rw (e, append_raw_utf8)
        (elim (Bool-cases (leb size (length output + suc n))) [
          | inl full ↦ rw full tt
          | inr room ↦ rw room (length-drop-le n s)
        ])
]

string_step_shrinks :
    (size c : ℕ) (s output : Bytes) → OnOk (FrontIn (length s)) (string_step size c s output)
unfolding string_step
string_step_shrinks size c s output = elim (Bool-cases (ltb c 0x20)) [
  | inl e1 ↦ rw e1 tt
  | inr e1 ↦ rw e1 (elim (Bool-cases (c == b'\\')) [
    | inl e2 ↦ rw e2 (escape_shrinks size s output)
    | inr e2 ↦ rw e2 (elim (Bool-cases (leb 0x80 c)) [
      | inl e3 ↦ rw e3 (raw_shrinks size c s output)
      | inr e3 ↦ rw e3 (ground arith)
    ])
  ])
]

-- Two continuations that agree on what comes give the same.
pub bind_same :
    {A B : Type 0} (Q : A → Type 0) (m : Parsed A) (f g : A → Parsed B)
    → OnOk Q m
    → ((a : A) → Q a → f a ≡ g a)
    → (m >>= f) ≡ (m >>= g)
bind_same Q (ok a) f g h k = k a h
bind_same Q (bad e) f g h k = refl

-- The loop of parseJsonString ends by its own tests: any fuel above the length of the text gives the
-- same.
pub string_loop-fuel :
    (f g size : ℕ) (s output : Bytes)
    → length s < f
    → length s < g
    → string_loop f size s output ≡ string_loop g size s output
unfolding string_loop
string_loop-fuel zero g size s output a b = absurd (omega arith)
string_loop-fuel (suc f) zero size s output a b = absurd (omega arith)
string_loop-fuel (suc f) (suc g) size [] output a b = refl
string_loop-fuel (suc f) (suc g) size (c ∷ s) output a b = elim (Bool-cases (c == b'"')) [
  | inl e ↦ rw e
  | inr e ↦ rw e (
      bind_same (FrontIn (length s)) (string_step size c s output) _ _
        (string_step_shrinks size c s output)
        (λ r h. string_loop-fuel f g size r.0 r.1 (omega arith) (omega arith)))
]

finish_string_shrinks : (output s : Bytes) → OnOk (RestIn (length s)) (finish_string output s)
unfolding finish_string
finish_string_shrinks [] s = tt
finish_string_shrinks (c ∷ output) s = omega arith

string_loop_shrinks :
    (f size : ℕ) (s output : Bytes) → OnOk (RestIn (length s)) (string_loop f size s output)
unfolding string_loop
string_loop_shrinks zero size s output = tt
string_loop_shrinks (suc f) size [] output = tt
string_loop_shrinks (suc f) size (c ∷ s) output = elim (Bool-cases (c == b'"')) [
  | inl e ↦
      rw e (weaken_text (finish_string output s) (omega arith) (finish_string_shrinks output s))
  | inr e ↦ rw e (
      bind-OnOk (FrontIn (length s)) (RestIn (suc (length s))) (string_step size c s output) _
        (string_step_shrinks size c s output)
        (λ r h.
          weaken_text (string_loop f size r.0 r.1) (omega arith)
            (string_loop_shrinks f size r.0 r.1)))
]

-- What is left behind a string is shorter than the text that it was read from.
pub parse_json_string_shrinks :
    (size n : ℕ) (s : Bytes) → length s ≤ suc n → OnOk (RestIn n) (parse_json_string size s)
unfolding parse_json_string
parse_json_string_shrinks size n [] h = tt
parse_json_string_shrinks size n (c ∷ s) h = elim (Bool-cases (not (c == b'"') || size == 0)) [
  | inl e ↦ rw e tt
  | inr e ↦ rw e (
      weaken_text (string_loop (suc (length s)) size s []) (omega arith)
        (string_loop_shrinks (suc (length s)) size s []))
]
