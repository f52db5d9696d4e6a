-- ===== src/Daemon/Child.antt =====
-- mqtt-agent.cpp, lines 314 to 400 and 431 to 538: the runs of ota-agent.
use alientek.Prelude.{
  ◌+◌, Bool, true, false, not, none, some, List, [], ◌∷◌, ◌==◌, if◌then◌else◌, Bytes, length, text,
  before, read_lines,
}
use alientek.World.{
  World, Platform, Errno, Ran, Exit, exited, killed, Spawned, failed, started, ran, Result, ok, err,
  after_child, put_log,
}
use alientek.Backend.{Backend}
use alientek.Daemon.{
  Daemon, Host, Piece, chunk, interrupted, Last, closed, again, broken, put_world,
}
use alientek.Daemon.Lines.{is_break, put_line, emit_ota_line, consume_ota_chunk}
use alientek.Daemon.Network.{set_non_block}

abbrev pub precheck_args : Bytes → Bytes → List Bytes
precheck_args bin json = bin ∷ text "--mqtt-precheck" ∷ json ∷ []

-- The child runs with OTA_MQTT_SKIP_ACCEPTED=1 in its environment.
abbrev pub command_args : Bytes → Bytes → Bytes → List Bytes
command_args bin json path = bin ∷ text "--mqtt-command" ∷ json ∷ path ∷ []

-- WIFEXITED(status) && WEXITSTATUS(status) == 0
unfoldable pub is_success : Exit → Bool
is_success (exited status) = status == 0
is_success (killed signal) = false

-- finishOtaChild
unfoldable pub finish_ota_child : Daemon → Daemon
finish_ota_child d = record d { pipe = false; child = false; line = []; busy = false }

module _ (p : Platform) (system : Host) (backend : Backend) where
  -- The loop of lines 362 to 371.
  unfoldable pub put_lines : List Bytes → Daemon → Daemon
  put_lines [] d = d
  put_lines (line ∷ lines) d = put_lines lines (put_line backend (before is_break line) d)

  -- Lines 373 to 383.
  unfoldable pub precheck_ended : List Errno → Exit → Bool
  precheck_ended (e ∷ errors) exit = false
  precheck_ended [] exit = is_success exit

  -- Lines 354 to 383, with the child started.
  unfoldable pub precheck_run : Ran → Daemon → Bool × Daemon
  precheck_run r d = if not (system.fdopen d.world) then (false, d) else (
    precheck_ended r.wait_errors r.exit,
    put_lines (read_lines (length r.output + 1) 1024 r.output) d,
  )

  -- Lines 331 to 383, on what fork gives.
  unfoldable pub precheck_spawned : List Bytes → Spawned → Daemon → Bool × Daemon
  precheck_spawned args (failed e) d = (false, d)
  precheck_spawned args (started r) d = precheck_run r (put_world (after_child args r) d)

  -- runOtaPrecheck: whether it returns 0
  unfoldable pub run_ota_precheck : Bytes → Daemon → Bool × Daemon
  run_ota_precheck json d = elim (p.pipe_error d.world) [
    | some e ↦ (false, d)
    | none ↦
        precheck_spawned (precheck_args d.ota_bin json)
          (p.spawn d.world (precheck_args d.ota_bin json)) d
  ]

  -- Lines 501 to 515, with the child forked: it is stopped if its pipe cannot be set.
  unfoldable pub child_forked : Daemon → Daemon
  child_forked d =
      if not (set_non_block system d.world)
      then d
      else record d { pipe = true; child = true; line = []; busy = true }

  -- startOtaChild
  unfoldable pub start_ota_child : Bytes → Daemon → Daemon
  start_ota_child json d =
      let args = command_args d.ota_bin json d.download_path in
      elim (p.pipe_error d.world) [
        | some e ↦ d
        | none ↦ elim (system.fork d.world args) [
          | some e ↦ d
          | none ↦ child_forked (put_world (put_log (ran args)) d)
        ]
      ]

  -- Lines 524 to 527, on what runOtaPrecheck gives.
  unfoldable pub prechecked_by : Bytes → Bool × Daemon → Daemon
  prechecked_by json (false, d) = d
  prechecked_by json (true, d) = start_ota_child json d

  -- startOtaCommand
  unfoldable pub start_ota_command : Bytes → Daemon → Daemon
  start_ota_command json d = if d.busy then d else prechecked_by json (run_ota_precheck json d)

  -- Lines 534 to 537, on what otaMqttPopCommand gives.
  unfoldable pub popped_by : Result Bytes × World → Daemon → Daemon
  popped_by (err message, w) d = record d { world = w }
  popped_by (ok json, w) d = start_ota_command json (record d { world = w })

  -- processCommand
  unfoldable pub process_command : Daemon → Daemon
  process_command d = if d.busy then d else popped_by (backend.pop_command 4096 d.world) d

  -- The end of the loop of pollOtaOutput.
  unfoldable pub poll_last : Last → Daemon → Daemon
  poll_last closed d = finish_ota_child (emit_ota_line backend d)
  poll_last again d = d
  poll_last broken d = finish_ota_child d

  -- The loop of pollOtaOutput.
  unfoldable pub poll_loop : List Piece → Last → Daemon → Daemon
  poll_loop [] last d = poll_last last d
  poll_loop (chunk s ∷ pieces) last d = poll_loop pieces last (consume_ota_chunk backend s d)
  poll_loop (interrupted ∷ pieces) last d = poll_loop pieces last d

  -- pollOtaOutput
  unfoldable pub poll_ota_output : Daemon → Daemon
  poll_ota_output d =
      if not d.pipe
      then d
      else poll_loop (system.reads d.world).pieces (system.reads d.world).last d
