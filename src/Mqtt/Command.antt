-- ===== src/Mqtt/Command.antt =====
-- ota-mqtt.cpp, lines 24 to 31 and 278 to 437: the JSON object of a command.
use alientek.Prelude.{
  ℕ, zero, suc, Bool, true, false, not, ◌&&◌, ◌||◌, Option, none, some, [], ◌∷◌, ◌==◌,
  if◌then◌else◌, length, drop, Bytes, text, str_eq, starts_with, is_xdigit, skip_while,
}
use alientek.World.{ebadmsg, enomsg, eexist, einval}
use alientek.State.{OtaState, blank}
use alientek.State.Int.{ℤ, pos}
use alientek.Mqtt.Utf8.{Parsed, ok, bad, ◌>>=◌}
use alientek.Mqtt.Text.{parse_json_string}

-- OtaMqttCommand
pub record OtaMqttCommand : Type 0 where
  pub url : Bytes
  pub sha256 : Bytes

-- skipJsonSpace
unfoldable pub skip_json_space : Bytes → Bytes
unfolding skip_while
skip_json_space = skip_while (λ c. c == 32 || c == 9 || c == 10 || c == 13)

-- The bits of `fields`: one for each member that has been seen.
pub record Fields : Type 0 where
  pub request_id : Bool
  pub version : Bool
  pub url : Bool
  pub sha256 : Bool
  pub auto_reboot : Bool

abbrev pub no_fields : Fields
no_fields = record {
  request_id = false;
  version = false;
  url = false;
  sha256 = false;
  auto_reboot = false;
}

-- `fields == FIELD_ALL`
abbrev pub has_all : Fields → Bool
has_all f = f.request_id && f.version && f.url && f.sha256 && f.auto_reboot

-- CommandField
pub data CommandField : Type 0 where
  request_id version url sha256 auto_reboot : CommandField

-- commandFieldForKey; `none` is 0
unfoldable pub command_field_for_key : Bytes → Option CommandField
unfolding str_eq
command_field_for_key key =
    if str_eq key (text "requestId")
    then some CommandField.request_id
    else if str_eq key (text "version")
    then some CommandField.version
    else if str_eq key (text "url")
    then some CommandField.url
    else if str_eq key (text "sha256")
    then some CommandField.sha256
    else if str_eq key (text "autoReboot")
    then some CommandField.auto_reboot
    else none

-- `(*fields & field) != 0`
abbrev pub is_set : CommandField → Fields → Bool
is_set CommandField.request_id f = f.request_id
is_set CommandField.version f = f.version
is_set CommandField.url f = f.url
is_set CommandField.sha256 f = f.sha256
is_set CommandField.auto_reboot f = f.auto_reboot

-- `*fields |= field`
abbrev pub set_field : CommandField → Fields → Fields
set_field CommandField.request_id f = record f { request_id = true }
set_field CommandField.version f = record f { version = true }
set_field CommandField.url f = record f { url = true }
set_field CommandField.sha256 f = record f { sha256 = true }
set_field CommandField.auto_reboot f = record f { auto_reboot = true }

-- What is parsed so far: the state, the command and the fields seen, with the text to go on with.
pub record Parse : Type 0 where
  pub rest : Bytes
  pub state : OtaState
  pub command : OtaMqttCommand
  pub fields : Fields

-- parseJsonBoolean, with the value of an int
unfoldable pub parse_json_boolean : Bytes → Parsed (ℤ × Bytes)
parse_json_boolean s =
    if starts_with s (text "true")
    then ok (pos 1, drop 4 s)
    else if starts_with s (text "false")
    then ok (pos 0, drop 5 s)
    else bad ebadmsg

-- Lines 348 to 351 with parseCommandStringField: the value goes to the field of its key.
unfoldable pub parse_value : CommandField → Bytes → Parse → Parsed Parse
parse_value CommandField.request_id s p = do
  (v, rest) ← parse_json_string 64 s
  ok (record p { rest = rest; state = record (p.state) { request_id = v } })
parse_value CommandField.version s p = do
  (v, rest) ← parse_json_string 32 s
  ok (record p { rest = rest; state = record (p.state) { version = v } })
parse_value CommandField.url s p = do
  (v, rest) ← parse_json_string 512 s
  ok (record p { rest = rest; command = record (p.command) { url = v } })
parse_value CommandField.sha256 s p = do
  (v, rest) ← parse_json_string 65 s
  ok (record p { rest = rest; command = record (p.command) { sha256 = v } })
parse_value CommandField.auto_reboot s p = do
  (v, rest) ← parse_json_boolean s
  ok (record p { rest = rest; state = record (p.state) { auto_reboot = v } })

-- Lines 344 to 351.
unfoldable pub parse_new_field : CommandField → Bytes → Parse → Parsed Parse
parse_new_field field s p =
    if is_set field p.fields
    then bad eexist
    else parse_value field s (record p { fields = set_field field p.fields })

-- `*(*cursor)++ != ':'`
unfoldable pub expect_colon : Bytes → Parsed Bytes
expect_colon [] = bad ebadmsg
expect_colon (c ∷ s) = if c == b':' then ok s else bad ebadmsg

-- parseCommandMember
unfoldable pub parse_command_member : Parse → Parsed Parse
parse_command_member p = do
  (key, behind) ← parse_json_string 32 p.rest
  value ← expect_colon (skip_json_space behind)
  elim (command_field_for_key key) [
    | none ↦ bad ebadmsg
    | some field ↦ parse_new_field field (skip_json_space value) p
  ]

-- Lines 373 to 379, behind the closing brace.
unfoldable pub finish_object : Bytes → Parse → Parsed Parse
finish_object [] p = if has_all p.fields then ok p else bad enomsg
finish_object (c ∷ s) p = bad ebadmsg

unfoldable pub starts_brace : Bytes → Bool
starts_brace [] = false
starts_brace (c ∷ s) = c == b'}'

-- Line 380: a comma, and no closing brace behind it.
unfoldable pub expect_comma : Bytes → Parsed Bytes
expect_comma [] = bad ebadmsg
expect_comma (c ∷ s) =
    if c == b',' && not (starts_brace (skip_json_space s)) then ok s else bad ebadmsg

-- The loop of parseCommandObject, on fuel: each round ends the loop or takes a comma.
unfoldable pub object_loop : ℕ → Parse → Parsed Parse
object_loop zero p = bad ebadmsg
object_loop (suc fuel) p =
    let s = skip_json_space p.rest in
    if starts_brace s then bad enomsg else (do
      q ← parse_command_member (record p { rest = s })
      let t = skip_json_space q.rest
      if starts_brace t
          then finish_object (skip_json_space (drop 1 t)) q
          else (do u ← expect_comma t; object_loop fuel (record q { rest = u })))

-- parseCommandObject, on the blank state and command
unfoldable pub parse_command_object : Bytes → Parsed Parse
parse_command_object json = elim (skip_json_space json) [
  | [] ↦ bad ebadmsg
  | c ∷ s ↦
      if c == b'{'
      then object_loop (suc (length s)) (record {
        rest = s;
        state = blank;
        command = record { url = []; sha256 = [] };
        fields = no_fields;
      })
      else bad ebadmsg
]

-- isxdigit over the whole text
abbrev pub all_xdigits : Bytes → Bool
all_xdigits [] = true
all_xdigits (c ∷ s) = is_xdigit c && all_xdigits s

-- isValidSha256
unfoldable pub is_valid_sha256 : Bytes → Bool
is_valid_sha256 s = length s == 64 && all_xdigits s

-- validateCommand: whether it returns 0
unfoldable pub validate_command : OtaMqttCommand → Bool
validate_command c =
    (starts_with c.url (text "https://") || starts_with c.url (text "http://"))
    && is_valid_sha256 c.sha256

-- otaMqttParseCommandJson: the state and the command that it stores, or errno with nothing stored
unfoldable pub parse_command_json : Bytes → Parsed (OtaState × OtaMqttCommand)
parse_command_json json = do
  p ← parse_command_object json
  if validate_command p.command then ok (p.state, p.command) else bad einval

-- otaHandleCommandJson
unfoldable pub handle_command_json : Bytes → Parsed OtaState
handle_command_json json = do (state, command) ← parse_command_json json; ok state
