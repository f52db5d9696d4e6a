-- ===== src/State/Json.antt =====
-- ota-state.cpp, lines 13 to 176: the JSON text of an OtaState, written and read line by line.
use alientek.Prelude.{
  ℕ, ◌+◌, Bool, true, false, ◌||◌, Option, none, some, [], ◌∷◌, ◌++◌, leb, ◌==◌, if◌then◌else◌,
  Bytes, text, is_space, str_eq, str_chr, has, skip_while, fgets,
}
use alientek.State.{OtaState}
use alientek.State.Int.{ℤ, print_int, scan_int}

infixl 5 ◌>>=◌ ◌>>◌
abbrev pub ◌>>=◌ {ℓ κ} : {A : Type ℓ} {B : Type κ} → Option A → (A → Option B) → Option B
none >>= f = none
some a >>= f = f a

-- Goes on if the test holds.
abbrev pub ◌>>◌ {ℓ} : {A : Type ℓ} → Option (Unit {0}) → Option A → Option A
none >> k = none
some u >> k = k

abbrev pub guard : Bool → Option (Unit {0})
guard true = some tt
guard false = none

-- getEscapeSequence, and the byte itself where it gives NULL
unfoldable pub escape_byte : ℕ → Bytes
escape_byte c =
    if c == b'"'
    then b'\\' ∷ b'"' ∷ []
    else if c == b'\\'
    then b'\\' ∷ b'\\' ∷ []
    else if c == b'\n'
    then b'\\' ∷ b'n' ∷ []
    else if c == b'\r'
    then b'\\' ∷ b'r' ∷ []
    else if c == b'\t'
    then b'\\' ∷ b't' ∷ []
    else c ∷ []

-- writeEscapedString, in front of what is written next
unfoldable pub escaped : Bytes → Bytes → Bytes
unfolding escape_byte
escaped [] rest = rest
escaped (c ∷ s) rest = escape_byte c ++ escaped s rest

-- `  "key": "`
abbrev pub field_start : Bytes → Bytes
field_start key = text "  \"" ++ (key ++ text "\": \"")

-- writeStringField with a trailing comma, as each of its calls has it
unfoldable pub write_string_field : Bytes → Bytes → Bytes → Bytes
unfolding escaped
write_string_field key value rest = field_start key ++ escaped value (b'"' ∷ b',' ∷ b'\n' ∷ rest)

-- writeState
unfoldable pub write_state : OtaState → Bytes
unfolding write_string_field print_int
write_state state =
    text "{\n"
    ++ write_string_field (text "requestId") state.request_id (
        write_string_field (text "version") state.version (
          write_string_field (text "targetSlot") state.target_slot (
            write_string_field (text "phase") state.phase (
              write_string_field (text "result") state.result (
                write_string_field (text "detail") state.detail
                  (text "  \"autoReboot\": " ++ (print_int state.auto_reboot ++ text "\n}\n")))))))

-- decodeEscapedCharacter
unfoldable pub decode_escaped_character : ℕ → Option ℕ
decode_escaped_character c =
    if c == b'"' || c == b'\\'
    then some c
    else if c == b'n'
    then some b'\n'
    else if c == b'r'
    then some b'\r'
    else if c == b't'
    then some b'\t'
    else none

-- `output[outputLength++] = c`, if the terminator fits behind it, and what the loop adds then
unfoldable pub push : ℕ → ℕ → ℕ → Option Bytes → Option Bytes
push size length c more = if leb size (length + 1) then none else (do s ← more; some (c ∷ s))

-- The loop of decodeString, behind the opening quote.
unfoldable pub decode_from : ℕ → ℕ → Bytes → Option Bytes
unfolding push decode_escaped_character
decode_from size length [] = none
decode_from size length (c ∷ []) = if c == b'"' then some [] else none
decode_from size length (c ∷ d ∷ s) =
    let escape = decode_from size (length + 1) s in
    let plain = decode_from size (length + 1) (d ∷ s) in
    if c == b'"'
    then some []
    else if c == b'\\'
    then (do e ← decode_escaped_character d; push size length e escape)
    else push size length c plain

-- decodeString
unfoldable pub decode_string : ℕ → Bytes → Option Bytes
unfolding decode_from
decode_string size [] = none
decode_string size (c ∷ s) = if c == b'"' then decode_from size 0 s else none

-- The part of a text behind its first `:`.
unfoldable pub after_colon : Bytes → Option Bytes
unfolding str_chr
after_colon line = elim (str_chr line b':') [ some (colon ∷ value) ↦ some value | _ ↦ none ]

-- readStringField: the value, and the rest of the file
unfoldable pub read_string_field : ℕ → Bytes → Bytes → Option (Bytes × Bytes)
unfolding after_colon
read_string_field size key file = do
  (line, rest) ← fgets 1024 file
  guard (has line (b'"' ∷ (key ++ (b'"' ∷ []))))
  value ← after_colon line
  output ← decode_string size (skip_while is_space value)
  some (output, rest)

-- A literal of a scanf format, and what is behind it.
match_text : Bytes → Bytes → Option Bytes
match_text [] s = some s
match_text (p ∷ ps) [] = none
match_text (p ∷ ps) (c ∷ s) = if c == p then match_text ps s else none

-- sscanf(line, " \"autoReboot\" : %d %c", …) == 1: a number, with only blanks behind it
unfoldable pub scan_auto_reboot : Bytes → Option ℤ
unfolding match_text skip_while
scan_auto_reboot line = do
  colon ← match_text (text "\"autoReboot\"") (skip_while is_space line)
  value ← match_text (text ":") (skip_while is_space colon)
  (number, extra) ← scan_int value
  guard (str_eq (skip_while is_space extra) [])
  some number

-- readAutoReboot
unfoldable pub read_auto_reboot : Bytes → Option (ℤ × Bytes)
unfolding scan_auto_reboot
read_auto_reboot file = do
  (line, rest) ← fgets 128 file
  number ← scan_auto_reboot line
  some (number, rest)

-- fgets(line, 32, file) and strchr(line, brace)
unfoldable pub read_brace : ℕ → Bytes → Option Bytes
unfolding str_chr
read_brace brace file = do (line, rest) ← fgets 32 file; found ← str_chr line brace; some rest

-- readState
unfoldable pub read_state : Bytes → Option OtaState
unfolding read_brace
read_state file = do
  f0 ← read_brace b'{' file
  (request_id, f1) ← read_string_field 64 (text "requestId") f0
  (version, f2) ← read_string_field 32 (text "version") f1
  (target_slot, f3) ← read_string_field 8 (text "targetSlot") f2
  (phase, f4) ← read_string_field 32 (text "phase") f3
  (result, f5) ← read_string_field 16 (text "result") f4
  (detail, f6) ← read_string_field 256 (text "detail") f5
  (auto_reboot, f7) ← read_auto_reboot f6
  f8 ← read_brace b'}' f7
  some (record {
    request_id = request_id;
    version = version;
    target_slot = target_slot;
    phase = phase;
    result = result;
    detail = detail;
    auto_reboot = auto_reboot;
  })
