-- ===== src/Mqtt/Payload/Built.antt =====
-- The object that otaMqttBuildStatusPayload writes.
use alientek.Prelude.{
  ℕ, ◌<◌, true, not, [], ◌∷◌, ◌++◌, ◌≡◌, refl, ap, ◌∙◌, inl, inr, arith, leb, ◌==◌, Bool-cases,
  if◌then◌else◌, length, length-append, append_assoc, append-nil, Bytes, text, fit,
}
use alientek.World.{ebadmsg, einval, enospc}
use alientek.State.{OtaState}
use alientek.Mqtt.Utf8.{Parsed, ok, bad, ◌>>=◌}
use alientek.Mqtt.Text.{append_text, append_escaped, escape_json_byte}
use alientek.Mqtt.Strings.{json_escaped}
use alientek.Mqtt.Payload.{
  status_prefix, append_status_field, append_status, validate_status_utf8, build_status_payload,
}

-- The buffer with the text and its terminator, or ENOSPC.
abbrev pub within_size : ℕ → Bytes → Parsed Bytes
within_size size out = if leb size (length out) then bad enospc else ok out

append_text-within :
    (size : ℕ) (buffer t : Bytes) → append_text size buffer t ≡ within_size size (buffer ++ t)
unfolding append_text
append_text-within size buffer t = rw (length-append buffer t) refl

bind_within :
    (size : ℕ) (out more : Bytes) (f : Bytes → Parsed Bytes)
    → (length out < size → f out ≡ within_size size (out ++ more))
    → (within_size size out >>= f) ≡ within_size size (out ++ more)
bind_within size out more f h = elim (Bool-cases (leb size (length out))) [
  | inl e ↦
      let q : leb size (length (out ++ more)) ≡ true = ground (arith, length-append out more) in
      rw (e, q)
  | inr e ↦ rw e (h (ground arith))
]

json_escaped-append : (v xs ys : Bytes) → json_escaped v xs ++ ys ≡ json_escaped v (xs ++ ys)
json_escaped-append [] xs ys = refl
json_escaped-append (c ∷ v) xs ys =
    append_assoc (escape_json_byte c) (json_escaped v xs) ys
    ∙ ap (◌++◌ (escape_json_byte c)) (json_escaped-append v xs ys)

append_escaped-within :
    (size : ℕ) (buffer v : Bytes)
    → length buffer < size
    → append_escaped size buffer v ≡ within_size size (buffer ++ json_escaped v [])
unfolding append_escaped
append_escaped-within size buffer [] h = rw append-nil (ground arith)
append_escaped-within size buffer (c ∷ v) h =
    rw (append_text-within size buffer (escape_json_byte c)) (
      bind_within size (buffer ++ escape_json_byte c) (json_escaped v []) _
        (λ room. append_escaped-within size (buffer ++ escape_json_byte c) v room)
      ∙ ap (within_size size) (append_assoc buffer (escape_json_byte c) (json_escaped v [])))

-- `"key":"value` and what stands behind the value
abbrev pub status_field : Bytes → Bytes → Bytes → Bytes
status_field key value rest = status_prefix key ++ json_escaped value rest

field_within :
    (size : ℕ) (key value suffix buffer : Bytes)
    → fit 64 (status_prefix key) ≡ status_prefix key
    → length buffer < size
    → append_status_field size key value suffix buffer
      ≡ within_size size (buffer ++ status_field key value suffix)
unfolding append_status_field
field_within size key value suffix buffer short h = rw short (
    rw (append_text-within size buffer (status_prefix key)) (
      bind_within size (buffer ++ status_prefix key) (json_escaped value suffix) _ (λ room.
        rw (append_escaped-within size (buffer ++ status_prefix key) value room) (
          bind_within size _ suffix _ (λ r. append_text-within size _ suffix)
          ∙ ap (within_size size) (
              append_assoc (buffer ++ status_prefix key) (json_escaped value []) suffix
              ∙ ap (◌++◌ (buffer ++ status_prefix key)) (json_escaped-append value [] suffix))))
      ∙ ap (within_size size)
          (append_assoc buffer (status_prefix key) (json_escaped value suffix))))

-- The JSON of a status.
abbrev pub status_json : OtaState → Bytes
status_json s =
    text "{"
    ++ (status_field (text "requestId") s.request_id (text "\",")
        ++ (status_field (text "phase") s.phase (text "\",")
            ++ (status_field (text "result") s.result (text "\",")
                ++ status_field (text "detail") s.detail (text "\"}"))))

append_status-within :
    (size : ℕ) (s : OtaState) → append_status size s ≡ within_size size (status_json s)
unfolding append_status
append_status-within size s =
    let f1 = status_field (text "requestId") s.request_id (text "\",") in
    let f2 = status_field (text "phase") s.phase (text "\",") in
    let f3 = status_field (text "result") s.result (text "\",") in
    let f4 = status_field (text "detail") s.detail (text "\"}") in
    let b0 : Bytes = text "{" in
    let b1 = b0 ++ f1 in
    let b2 = b1 ++ f2 in
    let b3 = b2 ++ f3 in
    rw (append_text-within size [] b0) (
      bind_within size b0 (f1 ++ (f2 ++ (f3 ++ f4))) _ λ r0.
        rw (field_within size (text "requestId") s.request_id (text "\",") b0 refl r0) (
          bind_within size b1 (f2 ++ (f3 ++ f4)) _ (λ r1.
            rw (field_within size (text "phase") s.phase (text "\",") b1 refl r1) (
              bind_within size b2 (f3 ++ f4) _ (λ r2.
                rw (field_within size (text "result") s.result (text "\",") b2 refl r2) (
                  bind_within size b3 f4 _
                    (λ r3. field_within size (text "detail") s.detail (text "\"}") b3 refl r3)
                  ∙ ap (within_size size) (append_assoc b2 f3 f4)))
              ∙ ap (within_size size) (append_assoc b1 f2 (f3 ++ f4))))
          ∙ ap (within_size size) (append_assoc b0 f1 (f2 ++ (f3 ++ f4)))))

-- The status is the whole JSON object of the id, the phase, the result and the detail, if
-- validateStatusUtf8 accepts them and the object with its terminator fits the buffer; if it does not
-- fit the result is ENOSPC, if they are not accepted EBADMSG, and with no buffer EINVAL.
pub build_status_payload_lem :
    (size : ℕ) (s : OtaState)
    → build_status_payload size s ≡ (
        if size == 0
        then bad einval
        else if not (validate_status_utf8 s)
        then bad ebadmsg
        else if leb size (length (status_json s))
        then bad enospc
        else ok (status_json s))
unfolding build_status_payload
build_status_payload_lem size s = rw (append_status-within size s)
