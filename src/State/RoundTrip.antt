-- ===== src/State/RoundTrip.antt =====
-- writeState and readState one after the other.
use alientek.Prelude.{
  ℕ, ◌+◌, ◌*◌, ◌≤◌, ◌<◌, true, some, [], ◌∷◌, ◌++◌, ◌≡◌, ◌≢◌, refl, sym, ap, ◌∙◌, arith, length,
  All, All-append, length-append, append_assoc, Bytes, text, has, is_space, skip_while, is_digit,
  str_eq, fgets,
}
use mathlib.Core.Option
use alientek.Prelude.CLaws.{IsInLine, fgets_line}
use alientek.State.{OtaState, IsState, Fits}
use alientek.State.Int.{ℤ, print_int, scan_int-print_int, scan_int_blank, IsInt, print_int_line}
use alientek.State.Json.{
  escape_byte, escaped, field_start, write_string_field, write_state, decode_from, decode_string,
  after_colon, read_string_field, scan_auto_reboot, read_auto_reboot, read_brace, read_state,
}

decode_from-escape_byte :
    (size n c d : ℕ) (s : Bytes)
    → n + 1 < size
    → decode_from size n (escape_byte c ++ (d ∷ s))
      ≡ Option.map (◌∷◌ c) (decode_from size (n + 1) (d ∷ s))
unfolding decode_from escape_byte
decode_from-escape_byte size n c d s h = ground arith

append_onto-cons :
    (xs : Bytes) (d : ℕ) (s : Bytes) → (e : ℕ) × (t : Bytes) × (xs ++ (d ∷ s) ≡ e ∷ t)
append_onto-cons [] d s = (d, s, refl)
append_onto-cons (x ∷ xs) d s = (x, xs ++ (d ∷ s), refl)

escaped-cons :
    (v : Bytes) (q : ℕ) (rest : Bytes) → (d : ℕ) × (s : Bytes) × (escaped v (q ∷ rest) ≡ d ∷ s)
unfolding escaped
escaped-cons [] q rest = (q, rest, refl)
escaped-cons (c ∷ v) q rest =
    let (d, s, e) = escaped-cons v q rest in rw e (append_onto-cons (escape_byte c) d s)

-- decodeString undoes writeEscapedString, where the text fits.
decode_from-escaped :
    (size n : ℕ) (v rest : Bytes)
    → n + length v < size
    → decode_from size n (escaped v (b'"' ∷ rest)) ≡ some v
unfolding escaped decode_from
decode_from-escaped size n [] [] h = refl
decode_from-escaped size n [] (r ∷ rest) h = refl
decode_from-escaped size n (c ∷ v) rest h =
    let (d, s, e) = escaped-cons v b'"' rest in
    let ih = decode_from-escaped size (n + 1) v rest (omega arith) in
    rw e (decode_from-escape_byte size n c d s (omega arith) ∙ ap (Option.map (◌∷◌ c)) (rw e at ih))

escaped-append : (v xs ys : Bytes) → escaped v (xs ++ ys) ≡ escaped v xs ++ ys
unfolding escaped
escaped-append [] xs ys = refl
escaped-append (c ∷ v) xs ys =
    rw (escaped-append v xs ys) (sym (append_assoc (escape_byte c) (escaped v xs) ys))

-- Nothing in an escaped text ends a line.
escape_byte-IsInLine : (c : ℕ) → c ≢ 0 → All IsInLine (escape_byte c)
unfolding escape_byte
escape_byte-IsInLine c h = ground arith

escaped-IsInLine :
    (v rest : Bytes) → All (λ c. c ≢ 0) v → All IsInLine rest → All IsInLine (escaped v rest)
unfolding escaped
escaped-IsInLine [] rest h k = k
escaped-IsInLine (c ∷ v) rest h k =
    All-append IsInLine (escape_byte c) (escaped v rest) (escape_byte-IsInLine c h.0)
      (escaped-IsInLine v rest h.1 k)

length-escape_byte : (c : ℕ) → length (escape_byte c) ≤ 2
unfolding escape_byte
length-escape_byte c = ground arith

length-escaped : (v rest : Bytes) → length (escaped v rest) ≤ 2 * length v + length rest
unfolding escaped
length-escaped [] rest = omega arith
length-escaped (c ∷ v) rest = omega (
  arith,
  length-append (escape_byte c) (escaped v rest),
  length-escape_byte c,
  length-escaped v rest,
)

-- What is asked of the name of a field.
record IsKey (key : Bytes) : Type 0 where
  in_line : All IsInLine (field_start key)
  short : length (field_start key) ≤ 32
  found : (t : Bytes) → has (field_start key ++ t) (b'"' ∷ (key ++ (b'"' ∷ []))) ≡ true
  value : (t : Bytes) → after_colon (field_start key ++ t) ≡ some (32 ∷ b'"' ∷ t)

module _ (size : ℕ) (key v rest : Bytes) (k : IsKey key) (f : Fits size v) (b : size ≤ 256) where
  line : Bytes
  line = field_start key ++ escaped v (b'"' ∷ b',' ∷ [])

  write_string_field-line : write_string_field key v rest ≡ line ++ (b'\n' ∷ rest)
  unfolding write_string_field line
  write_string_field-line =
      ap (◌++◌ (field_start key)) (escaped-append v (b'"' ∷ b',' ∷ []) (b'\n' ∷ rest))
      ∙ sym (append_assoc (field_start key) _ _)

  line_terminated : line ++ (b'\n' ∷ []) ≡ field_start key ++ escaped v (b'"' ∷ b',' ∷ b'\n' ∷ [])
  unfolding line
  line_terminated =
      append_assoc (field_start key) _ _
      ∙ ap (◌++◌ (field_start key)) (sym (escaped-append v (b'"' ∷ b',' ∷ []) (b'\n' ∷ [])))

  fgets-line :
      fgets 1024 (write_string_field key v rest)
      ≡ some (field_start key ++ escaped v (b'"' ∷ b',' ∷ b'\n' ∷ []), rest)
  unfolding line
  fgets-line = rw write_string_field-line (
      fgets_line 1024 line rest
        (All-append IsInLine (field_start key) _ k.in_line
          (escaped-IsInLine v _ f.1 ((refl, refl), ((refl, refl), tt))))
        (omega (
          arith,
          length-append (field_start key) (escaped v (b'"' ∷ b',' ∷ [])),
          k.short,
          f.0,
          b,
          length-escaped v (b'"' ∷ b',' ∷ []),
        ))
      ∙ rw line_terminated)

  -- A field is read back, and the file is left behind its line.
  read-write_string_field :
      read_string_field size key (write_string_field key v rest) ≡ some (v, rest)
  unfolding read_string_field decode_string skip_while is_space
  read-write_string_field =
      rw (fgets-line, read_string_field)
        (rw k.found
          (rw k.value (rw (decode_from-escaped size 0 v (b',' ∷ b'\n' ∷ []) (omega (arith, f.0))))))

IsKey-request_id : IsKey (text "requestId")
unfolding has after_colon
IsKey-request_id = record {
  in_line = ground arith;
  short = omega arith;
  found = λ t. refl;
  value = λ t. refl;
}

IsKey-version : IsKey (text "version")
unfolding has after_colon
IsKey-version = record {
  in_line = ground arith;
  short = omega arith;
  found = λ t. refl;
  value = λ t. refl;
}

IsKey-target_slot : IsKey (text "targetSlot")
unfolding has after_colon
IsKey-target_slot = record {
  in_line = ground arith;
  short = omega arith;
  found = λ t. refl;
  value = λ t. refl;
}

IsKey-phase : IsKey (text "phase")
unfolding has after_colon
IsKey-phase = record {
  in_line = ground arith;
  short = omega arith;
  found = λ t. refl;
  value = λ t. refl;
}

IsKey-result : IsKey (text "result")
unfolding has after_colon
IsKey-result = record {
  in_line = ground arith;
  short = omega arith;
  found = λ t. refl;
  value = λ t. refl;
}

IsKey-detail : IsKey (text "detail")
unfolding has after_colon
IsKey-detail = record {
  in_line = ground arith;
  short = omega arith;
  found = λ t. refl;
  value = λ t. refl;
}

abbrev auto_reboot_start : Bytes
auto_reboot_start = text "  \"autoReboot\": "

auto_reboot-IsInLine : All IsInLine auto_reboot_start
auto_reboot-IsInLine = ground arith

scan_auto_reboot_line :
    (i : ℤ) → scan_auto_reboot (auto_reboot_start ++ (print_int i ++ (b'\n' ∷ []))) ≡ some i
unfolding scan_auto_reboot is_space is_digit str_eq
scan_auto_reboot_line i =
    rw (scan_int_blank (print_int i ++ (b'\n' ∷ [])), scan_int-print_int i (b'\n' ∷ []) refl)

read_auto_reboot_line :
    (i : ℤ) (rest : Bytes)
    → IsInt i
    → read_auto_reboot (auto_reboot_start ++ (print_int i ++ (b'\n' ∷ rest))) ≡ some (i, rest)
unfolding read_auto_reboot
read_auto_reboot_line i rest h =
    let (short, in_line) = print_int_line i h in
    let l : Bytes = auto_reboot_start ++ print_int i in
    let read =
      fgets_line 128 l rest
        (All-append IsInLine auto_reboot_start (print_int i) auto_reboot-IsInLine in_line)
        (omega (arith, length-append auto_reboot_start (print_int i), short)) in
    rw (read, read_auto_reboot) (rw scan_auto_reboot_line)

read_brace_open : (rest : Bytes) → read_brace b'{' (text "{\n" ++ rest) ≡ some rest
unfolding read_brace fgets
read_brace_open rest = refl

read_brace_close : read_brace b'}' (text "}\n") ≡ some []
unfolding read_brace fgets
read_brace_close = refl

-- readState gives back the state that writeState wrote, for every state that the arrays can hold
-- and every int.
pub read_state-write_state : (s : OtaState) → IsState s → read_state (write_state s) ≡ some s
unfolding read_state write_state
read_state-write_state s h =
    rw (read_brace_open, read_state)
      (rw
        (read-write_string_field 64 (text "requestId") s.request_id _ IsKey-request_id
          h.request_id_fits (omega arith))
        (rw
          (read-write_string_field 32 (text "version") s.version _ IsKey-version h.version_fits
            (omega arith))
          (rw
            (read-write_string_field 8 (text "targetSlot") s.target_slot _ IsKey-target_slot
              h.target_slot_fits (omega arith))
            (rw
              (read-write_string_field 32 (text "phase") s.phase _ IsKey-phase h.phase_fits
                (omega arith))
              (rw
                (read-write_string_field 16 (text "result") s.result _ IsKey-result h.result_fits
                  (omega arith))
                (rw
                  (read-write_string_field 256 (text "detail") s.detail _ IsKey-detail h.detail_fits
                    (omega arith))
                  (rw (read_auto_reboot_line s.auto_reboot (text "}\n") h.auto_reboot_fits)
                    (rw read_brace_close))))))))
