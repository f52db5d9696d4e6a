-- ===== src/Daemon/Lines.antt =====
-- mqtt-agent.cpp, lines 299 to 312 and 402 to 429: the lines that the children print.
pub mod Split
use alientek.Prelude.{
  ℕ, ◌+◌, Bool, true, false, not, ◌||◌, ◌&&◌, List, [], ◌∷◌, ◌++◌, ◌==◌, ltb, if◌then◌else◌, Bytes,
  length, text, has, c_str,
}
use alientek.World.{World, printed, put_log}
use alientek.Backend.{Backend}
use alientek.Daemon.{Daemon, put_world}

-- line[0] == '{'
unfoldable pub opens_object : Bytes → Bool
opens_object [] = false
opens_object (c ∷ s) = c == b'{'

-- looksLikeStatusJson
unfoldable pub looks_like_status_json : Bytes → Bool
unfolding opens_object has
looks_like_status_json line = opens_object line && has line (text "\"phase\"")

-- character == '\n' || character == '\r'
unfoldable pub is_break : ℕ → Bool
is_break c = c == b'\n' || c == b'\r'

abbrev pub set_line : Bytes → Daemon → Daemon
set_line s d = record d { line = s }

module _ (backend : Backend) where
  -- forwardStatusLine
  unfoldable pub forward_status_line : Bytes → Daemon → Daemon
  forward_status_line line d =
      if not (looks_like_status_json line)
      then d
      else put_world (λ w. (backend.publish_status d.status_topic line w).1) d

  -- puts(line); forwardStatusLine(line)
  unfoldable pub put_line : Bytes → Daemon → Daemon
  put_line line d = forward_status_line line (put_world (put_log (printed (line ++ text "\n"))) d)

  -- The body of emitOtaLine, on the bytes of g_otaLineBuf.
  unfoldable pub emit_text : Bytes → Daemon → Daemon
  emit_text [] d = d
  emit_text (c ∷ s) d = set_line [] (put_line (c_str (c ∷ s)) d)

  -- emitOtaLine
  unfoldable pub emit_ota_line : Daemon → Daemon
  emit_ota_line d = emit_text d.line d

  -- The loop of consumeOtaChunk on one byte.
  unfoldable pub consume_byte : ℕ → Daemon → Daemon
  consume_byte c d =
      if is_break c
      then emit_ota_line d
      else if ltb (length d.line + 1) 1024
      then set_line (d.line ++ c ∷ []) d
      else d

  -- consumeOtaChunk
  unfoldable pub consume_ota_chunk : Bytes → Daemon → Daemon
  consume_ota_chunk [] d = d
  consume_ota_chunk (c ∷ chunk) d = consume_ota_chunk chunk (consume_byte c d)
