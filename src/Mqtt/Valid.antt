-- ===== src/Mqtt/Valid.antt =====
-- validateUtf8Text and text in UTF-8.
use alientek.Prelude.{
  ℕ, zero, suc, ◌≤◌, ◌<◌, true, some, [], ◌∷◌, ◌++◌, ◌≡◌, ◌≢◌, ◌↔◌, refl, sym, ap, ◌∙◌, inl, inr,
  arith, Option-cases, length, length-append, take, drop, All, Bytes,
}
use alientek.Mqtt.Utf8.{encode_utf8, utf8_sequence_length}
use alientek.Mqtt.Utf8.Exact.{
  decode_utf8, utf8_sequence_length-encode_utf8, utf8_sequence_length_exact,
}
use alientek.Mqtt.Text.{validate_loop, validate_utf8_text}
use alientek.Prelude.CLaws.{drop_append, take-drop}
use alientek.Mqtt.Strings.{IsUtf8, nil, scalar, length-encode_utf8}

drop-All : (P : ℕ → Type 0) (n : ℕ) (s : Bytes) → All P s → All P (drop n s)
drop-All P zero s h = h
drop-All P (suc n) [] h = tt
drop-All P (suc n) (c ∷ s) h = drop-All P n s h.1

length-drop-lt :
    (n : ℕ) (c : ℕ) (s : Bytes) → 0 < length (take n (c ∷ s)) → length (drop n (c ∷ s)) ≤ length s
length-drop-lt zero c s h = absurd (omega arith)
length-drop-lt (suc n) c s h = drop_le n s
  where
    drop_le : (m : ℕ) (t : Bytes) → length (drop m t) ≤ length t
    drop_le zero t = omega arith
    drop_le (suc m) [] = omega arith
    drop_le (suc m) (x ∷ t) = omega (arith, drop_le m t)

validate_loop-IsUtf8 :
    (fuel : ℕ) (s : Bytes)
    → All (λ c. c ≢ 0) s
    → length s ≤ fuel
    → validate_loop fuel s ≡ true
    → IsUtf8 s
unfolding validate_loop
validate_loop-IsUtf8 fuel [] z f h = nil refl
validate_loop-IsUtf8 zero (c ∷ s) z f h = absurd (omega arith)
validate_loop-IsUtf8 (suc fuel) (c ∷ s) z f h = elim (Option-cases (utf8_sequence_length (c ∷ s))) [
  | inl e ↦ absurd (ground (arith, e))
  | inr (n, e) ↦
      let (k, q) = utf8_sequence_length_exact (c ∷ s) n z.0 e in
      let short = length-drop-lt n c s (rw q (length-encode_utf8 (decode_utf8 n (c ∷ s)))) in
      scalar (decode_utf8 n (c ∷ s)) k (take-drop n (c ∷ s) ∙ ap (λ t. t ++ drop n (c ∷ s)) q) (
        validate_loop-IsUtf8 fuel (drop n (c ∷ s)) (drop-All (λ x. x ≢ 0) n (c ∷ s) z) (omega arith)
          (rw (e, validate_loop) at h))
]

validate_step :
    (fuel : ℕ) (v : Bytes) {n : ℕ}
    → v ≢ []
    → utf8_sequence_length v ≡ some n
    → validate_loop (suc fuel) v ≡ validate_loop fuel (drop n v)
unfolding validate_loop
validate_step fuel [] ne e = absurd (ne refl)
validate_step fuel (c ∷ v) ne e = rw (e, validate_loop)

validate_loop-true : (fuel : ℕ) {v : Bytes} → IsUtf8 v → validate_loop fuel v ≡ true
unfolding validate_loop
validate_loop-true zero u = refl
validate_loop-true (suc fuel) (nil e) = rw e
validate_loop-true (suc fuel) (scalar {v} {t} s k e u) =
    let n = length (encode_utf8 s) in
    let whole : utf8_sequence_length v ≡ some n = rw e (utf8_sequence_length-encode_utf8 s t k) in
    let rest : drop n v ≡ t = rw e (drop_append (encode_utf8 s) t) in
    let some_byte : v ≢ [] = λ q. absurd (
      omega (
        arith,
        length-encode_utf8 s,
        length-append (encode_utf8 s) t,
        ap (length {A = ℕ}) (sym e ∙ q),
      )) in
    validate_step fuel v some_byte whole ∙ ap (validate_loop fuel) rest ∙ validate_loop-true fuel u

-- validateUtf8Text accepts a text, which has no byte 0, exactly if it is UTF-8: the encodings of
-- Unicode scalars, one after the other.
pub validate_utf8_text-IsUtf8 :
    (s : Bytes) → All (λ c. c ≢ 0) s → (validate_utf8_text s ≡ true) ↔ IsUtf8 s
unfolding validate_utf8_text
validate_utf8_text-IsUtf8 s z =
    (validate_loop-IsUtf8 (length s) s z (omega arith), validate_loop-true (length s))
