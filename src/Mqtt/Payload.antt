-- ===== src/Mqtt/Payload.antt =====
-- ota-mqtt.cpp, lines 439 to 555: the JSON of a status.
pub mod Built
use alientek.Prelude.{
  ℕ, Bool, true, false, not, ◌&&◌, [], ◌∷◌, ◌++◌, ◌==◌, if◌then◌else◌, Bytes, text, fit,
}
use alientek.World.{ebadmsg, einval}
use alientek.State.{OtaState}
use alientek.Mqtt.Utf8.{Parsed, ok, bad, ◌>>=◌}
use alientek.Mqtt.Text.{append_text, append_escaped, validate_utf8_text}

-- validateStatusUtf8: whether it returns 0
unfoldable pub validate_status_utf8 : OtaState → Bool
validate_status_utf8 s =
    validate_utf8_text s.request_id
    && validate_utf8_text s.phase
    && validate_utf8_text s.result
    && validate_utf8_text s.detail

-- `"key":"`
abbrev pub status_prefix : Bytes → Bytes
status_prefix key = text "\"" ++ (key ++ text "\":\"")

-- appendStatusField
unfoldable pub append_status_field : ℕ → Bytes → Bytes → Bytes → Bytes → Parsed Bytes
append_status_field size key value suffix buffer = do
  b1 ← append_text size buffer (fit 64 (status_prefix key))
  b2 ← append_escaped size b1 value
  append_text size b2 suffix

-- Lines 547 to 551.
unfoldable pub append_status : ℕ → OtaState → Parsed Bytes
append_status size s = do
  b0 ← append_text size [] (text "{")
  b1 ← append_status_field size (text "requestId") s.request_id (text "\",") b0
  b2 ← append_status_field size (text "phase") s.phase (text "\",") b1
  b3 ← append_status_field size (text "result") s.result (text "\",") b2
  append_status_field size (text "detail") s.detail (text "\"}") b3

-- otaMqttBuildStatusPayload, into a buffer of `size` bytes
unfoldable pub build_status_payload : ℕ → OtaState → Parsed Bytes
build_status_payload size s =
    if size == 0
    then bad einval
    else if not (validate_status_utf8 s)
    then bad ebadmsg
    else append_status size s
