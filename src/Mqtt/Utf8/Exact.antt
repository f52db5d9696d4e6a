-- ===== src/Mqtt/Utf8/Exact.antt =====
-- utf8SequenceLength and encodeUtf8.
use mathlib.Core.Path.{subst}
use mathlib.Core.Option.{none-ne-some, some-injective}
use alientek.Prelude.{
  ℕ, ◌+◌, ◌-◌, ◌*◌, ◌≤◌, ◌<◌, true, some, [], ◌∷◌, ◌++◌, ◌≡◌, ◌≢◌, ◌⊎◌, inl, inr, refl, arith, leb,
  Bool-cases, ◌==◌, within, ◌&&◌, if◌then◌else◌, length, take, Bytes,
}
use alientek.Mqtt.Utf8.{
  encode_utf8, is_valid_utf8_three_byte, is_valid_utf8_four_byte, utf8_sequence_length, at,
}

-- A Unicode scalar value other than U+0000: no surrogate, and at most U+10FFFF.
abbrev pub IsScalar : ℕ → Type 0
IsScalar s = (0 < s) × ((s < 0xd800) ⊎ ((0xdfff < s) × (s ≤ 0x10ffff)))

-- The encoding of a scalar, in front of any text, is taken as one sequence of its own length.
pub utf8_sequence_length-encode_utf8 :
    (s : ℕ) (rest : Bytes)
    → IsScalar s
    → utf8_sequence_length (encode_utf8 s ++ rest) ≡ some (length (encode_utf8 s))
unfolding utf8_sequence_length is_valid_utf8_three_byte is_valid_utf8_four_byte encode_utf8
utf8_sequence_length-encode_utf8 s rest h = ground arith

-- The scalar that a sequence of `n` bytes stands for.
abbrev pub decode_utf8 : ℕ → Bytes → ℕ
decode_utf8 n t =
    if n == 1
    then at 0 t
    else if n == 2
    then (at 0 t - 0xc0) * 64 + (at 1 t - 0x80)
    else if n == 3
    then (at 0 t - 0xe0) * 4096 + (at 1 t - 0x80) * 64 + (at 2 t - 0x80)
    else (at 0 t - 0xf0) * 262144 + (at 1 t - 0x80) * 4096 + (at 2 t - 0x80) * 64 + (at 3 t - 0x80)

abbrev Accepts : ℕ → Bytes → Type 0
Accepts n t = IsScalar (decode_utf8 n t) × (take n t ≡ encode_utf8 (decode_utf8 n t))

one_byte : (a : ℕ) (t : Bytes) → a ≢ 0 → a ≤ 0x7f → Accepts 1 (a ∷ t)
unfolding encode_utf8
one_byte a t z h = ground arith

two_bytes :
    (a b : ℕ) (t : Bytes) → 0xc2 ≤ a → a ≤ 0xdf → 0x80 ≤ b → b ≤ 0xbf → Accepts 2 (a ∷ b ∷ t)
unfolding encode_utf8
two_bytes a b t h1 h2 h3 h4 = ground arith

three_bytes :
    (a b c : ℕ) (t : Bytes)
    → 0xe0 ≤ a
    → a ≤ 0xef
    → is_valid_utf8_three_byte (a ∷ b ∷ c ∷ t) ≡ true
    → Accepts 3 (a ∷ b ∷ c ∷ t)
unfolding encode_utf8 is_valid_utf8_three_byte
three_bytes a b c t h1 h2 h = ground arith

four_bytes :
    (a b c d : ℕ) (t : Bytes)
    → 0xf0 ≤ a
    → a ≤ 0xf4
    → is_valid_utf8_four_byte (a ∷ b ∷ c ∷ d ∷ t) ≡ true
    → Accepts 4 (a ∷ b ∷ c ∷ d ∷ t)
unfolding encode_utf8 is_valid_utf8_four_byte
four_bytes a b c d t h1 h2 h = ground arith

long_text :
    (a b c d n : ℕ) (t : Bytes)
    → a ≢ 0
    → utf8_sequence_length (a ∷ b ∷ c ∷ d ∷ t) ≡ some n
    → Accepts n (a ∷ b ∷ c ∷ d ∷ t)
unfolding utf8_sequence_length
long_text a b c d n t z h = elim (Bool-cases (leb a 0x7f)) [
  | inl e1 ↦ is_n 1 (rw e1 at h) (one_byte a (b ∷ c ∷ d ∷ t) z (ground arith))
  | inr e1 ↦ elim (Bool-cases (within 0xc2 0xdf a && within 0x80 0xbf b)) [
    | inl e2 ↦
        is_n 2 (rw (e1, e2) at h)
          (two_bytes a b (c ∷ d ∷ t) (ground arith) (ground arith) (ground arith) (ground arith))
    | inr e2 ↦ elim (Bool-cases (within 0xe0 0xef a && is_valid_utf8_three_byte s)) [
      | inl e3 ↦
          is_n 3 (rw (e1, e2, e3) at h)
            (three_bytes a b c (d ∷ t) (ground arith) (ground arith) (ground arith))
      | inr e3 ↦ elim (Bool-cases (within 0xf0 0xf4 a && is_valid_utf8_four_byte s)) [
        | inl e4 ↦
            is_n 4 (rw (e1, e2, e3, e4) at h)
              (four_bytes a b c d t (ground arith) (ground arith) (ground arith))
        | inr e4 ↦ absurd (none-ne-some n (rw (e1, e2, e3, e4) at h))
      ]
    ]
  ]
]
  where
    s : Bytes
    s = a ∷ b ∷ c ∷ d ∷ t

    is_n : (m : ℕ) → some m ≡ some n → Accepts m s → Accepts n s
    is_n m e k = subst (λ i. Accepts i s) (some-injective m n e) k

three_left :
    (a b c n : ℕ)
    → a ≢ 0
    → utf8_sequence_length (a ∷ b ∷ c ∷ []) ≡ some n
    → Accepts n (a ∷ b ∷ c ∷ [])
unfolding utf8_sequence_length is_valid_utf8_four_byte
three_left a b c n z h = elim (Bool-cases (leb a 0x7f)) [
  | inl e1 ↦ is_n 1 (rw e1 at h) (one_byte a (b ∷ c ∷ []) z (ground arith))
  | inr e1 ↦ elim (Bool-cases (within 0xc2 0xdf a && within 0x80 0xbf b)) [
    | inl e2 ↦
        is_n 2 (rw (e1, e2) at h)
          (two_bytes a b (c ∷ []) (ground arith) (ground arith) (ground arith) (ground arith))
    | inr e2 ↦ elim (Bool-cases (within 0xe0 0xef a && is_valid_utf8_three_byte (a ∷ b ∷ c ∷ []))) [
      | inl e3 ↦
          is_n 3 (rw (e1, e2, e3) at h)
            (three_bytes a b c [] (ground arith) (ground arith) (ground arith))
      | inr e3 ↦ absurd (ground arith)
    ]
  ]
]
  where
    is_n : (m : ℕ) → some m ≡ some n → Accepts m (a ∷ b ∷ c ∷ []) → Accepts n (a ∷ b ∷ c ∷ [])
    is_n m e k = subst (λ i. Accepts i (a ∷ b ∷ c ∷ [])) (some-injective m n e) k

-- A sequence that utf8SequenceLength accepts at a byte other than 0 is the encoding of one scalar:
-- no overlong form, no surrogate and nothing above U+10FFFF passes.
pub utf8_sequence_length_exact :
    (t : Bytes) (n : ℕ)
    → at 0 t ≢ 0
    → utf8_sequence_length t ≡ some n
    → IsScalar (decode_utf8 n t) × (take n t ≡ encode_utf8 (decode_utf8 n t))
unfolding utf8_sequence_length is_valid_utf8_three_byte is_valid_utf8_four_byte encode_utf8
utf8_sequence_length_exact [] n z h = absurd (z refl)
utf8_sequence_length_exact (a ∷ []) n z h = ground arith
utf8_sequence_length_exact (a ∷ b ∷ []) n z h = ground arith
utf8_sequence_length_exact (a ∷ b ∷ c ∷ []) n z h = three_left a b c n z h
utf8_sequence_length_exact (a ∷ b ∷ c ∷ d ∷ t) n z h = long_text a b c d n t z h
