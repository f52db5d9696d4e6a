-- ===== src/Daemon/Running.antt =====
-- The state of the run of ota-agent in mqtt-agent.cpp over the rounds of its loop.
use alientek.Prelude.{
  ℕ, ◌+◌, ◌≤◌, Bool, true, false, List, [], ◌∷◌, ◌≡◌, inl, inr, arith, Bytes, length, length-append,
  before, c_str, ◌⊎◌, read_lines,
}
use alientek.World.{World, Platform, Ran, Spawned, failed, started, Result, ok, err, after_child}
use alientek.Defaults.{Environment}
use alientek.Backend.{Backend}
use alientek.Daemon.{
  Daemon, Host, Piece, chunk, interrupted, Last, closed, again, broken, put_world,
}
use alientek.Daemon.Lines.{
  is_break, put_line, forward_status_line, emit_text, emit_ota_line, consume_byte,
  consume_ota_chunk,
}
use alientek.Daemon.Broker.{connect_session, session_by, ensure_session}
use alientek.Daemon.Child.{
  finish_ota_child, put_lines, precheck_run, precheck_spawned, run_ota_precheck, child_forked,
  start_ota_child, prechecked_by, start_ota_command, popped_by, process_command, poll_last,
  poll_loop, poll_ota_output, precheck_args,
}

-- No run of ota-agent, and one run, whose line leaves room for a terminator.
pub record IsIdle (d : Daemon) : Type 0 where
  pub not_busy : d.busy ≡ false
  pub no_pipe : d.pipe ≡ false
  pub no_child : d.child ≡ false
  pub no_line : d.line ≡ []

pub record IsBusy (d : Daemon) : Type 0 where
  pub is_busy : d.busy ≡ true
  pub has_pipe : d.pipe ≡ true
  pub has_child : d.child ≡ true
  pub fits : length d.line ≤ 1023

abbrev pub IsRunning : Daemon → Type 0
IsRunning d = IsIdle d ⊎ IsBusy d

-- What the rest of the daemon does not change.
abbrev pub SameRun : Daemon → Daemon → Type 0
SameRun d e = (e.busy ≡ d.busy) × (e.pipe ≡ d.pipe) × (e.child ≡ d.child) × (e.line ≡ d.line)

pub SameRun-IsIdle : (d e : Daemon) → SameRun d e → IsIdle d → IsIdle e
SameRun-IsIdle d e s h = ground arith

SameRun-IsBusy : (d e : Daemon) → SameRun d e → IsBusy d → IsBusy e
SameRun-IsBusy d e s h = ground arith

pub SameRun-IsRunning : (d e : Daemon) → SameRun d e → IsRunning d → IsRunning e
SameRun-IsRunning d e s (inl h) = inl (SameRun-IsIdle d e s h)
SameRun-IsRunning d e s (inr h) = inr (SameRun-IsBusy d e s h)

finish_ota_child-IsIdle : (d : Daemon) → IsIdle (finish_ota_child d)
unfolding finish_ota_child
finish_ota_child-IsIdle d = ground arith

module _ (p : Platform) (system : Host) (backend : Backend) where
  put_line_same : (line : Bytes) (d : Daemon) → SameRun d (put_line backend line d)
  unfolding put_line forward_status_line
  put_line_same line d = ground arith

  emit_text-IsBusy : (l : Bytes) (d : Daemon) → IsBusy d → IsBusy (emit_text backend l d)
  unfolding emit_text
  emit_text-IsBusy [] d h = h
  emit_text-IsBusy (c ∷ l) d h =
      let k =
        SameRun-IsBusy d (put_line backend (c_str (c ∷ l)) d) (put_line_same (c_str (c ∷ l)) d) h in
      ground arith

  consume_byte-IsBusy : (c : ℕ) (d : Daemon) → IsBusy d → IsBusy (consume_byte backend c d)
  unfolding consume_byte emit_ota_line
  consume_byte-IsBusy c d h =
      ground (arith, emit_text-IsBusy d.line d h, length-append d.line (c ∷ []))

  consume_ota_chunk-IsBusy :
      (s : Bytes) (d : Daemon) → IsBusy d → IsBusy (consume_ota_chunk backend s d)
  unfolding consume_ota_chunk
  consume_ota_chunk-IsBusy [] d h = h
  consume_ota_chunk-IsBusy (c ∷ s) d h =
      consume_ota_chunk-IsBusy s (consume_byte backend c d) (consume_byte-IsBusy c d h)

  poll_loop-IsRunning :
      (pieces : List Piece) (last : Last) (d : Daemon)
      → IsBusy d
      → IsRunning (poll_loop p system backend pieces last d)
  unfolding poll_loop poll_last
  poll_loop-IsRunning [] closed d h = inl (finish_ota_child-IsIdle (emit_ota_line backend d))
  poll_loop-IsRunning [] again d h = inr h
  poll_loop-IsRunning [] broken d h = inl (finish_ota_child-IsIdle d)
  poll_loop-IsRunning (chunk s ∷ pieces) last d h =
      poll_loop-IsRunning pieces last (consume_ota_chunk backend s d)
        (consume_ota_chunk-IsBusy s d h)
  poll_loop-IsRunning (interrupted ∷ pieces) last d h = poll_loop-IsRunning pieces last d h

  pub poll_ota_output-IsRunning :
      (d : Daemon) → IsRunning d → IsRunning (poll_ota_output p system backend d)
  unfolding poll_ota_output
  poll_ota_output-IsRunning d (inl h) = simp h.no_pipe (inl h)
  poll_ota_output-IsRunning d (inr h) =
      simp h.has_pipe
        (poll_loop-IsRunning (system.reads d.world).pieces (system.reads d.world).last d h)

  put_lines_same :
      (lines : List Bytes) (d : Daemon) → SameRun d (put_lines p system backend lines d)
  unfolding put_lines
  put_lines_same [] d = ground arith
  put_lines_same (line ∷ lines) d =
      let e = put_line backend (before is_break line) d in
      ground (arith, put_line_same (before is_break line) d, put_lines_same lines e)

  precheck_run_same : (r : Ran) (d : Daemon) → SameRun d (precheck_run p system backend r d).1
  unfolding precheck_run
  precheck_run_same r d =
      ground (arith, put_lines_same (read_lines (length r.output + 1) 1024 r.output) d)

  precheck_spawned_same :
      (args : List Bytes) (r : Spawned) (d : Daemon)
      → SameRun d (precheck_spawned p system backend args r d).1
  unfolding precheck_spawned
  precheck_spawned_same args (failed e) d = ground arith
  precheck_spawned_same args (started r) d =
      ground (arith, precheck_run_same r (put_world (after_child args r) d))

  run_ota_precheck_same :
      (json : Bytes) (d : Daemon) → SameRun d (run_ota_precheck p system backend json d).1
  unfolding run_ota_precheck
  run_ota_precheck_same json d =
      let args = precheck_args d.ota_bin json in
      ground (arith, precheck_spawned_same args (p.spawn d.world args) d)

  start_ota_child-IsRunning :
      (json : Bytes) (d : Daemon) → IsIdle d → IsRunning (start_ota_child p system backend json d)
  unfolding start_ota_child child_forked
  start_ota_child-IsRunning json d h = ground arith

  start_ota_command-IsRunning :
      (json : Bytes) (d : Daemon) → IsIdle d → IsRunning (start_ota_command p system backend json d)
  unfolding start_ota_command prechecked_by
  start_ota_command-IsRunning json d h = simp h.not_busy (
      by_result (run_ota_precheck p system backend json d)
        (SameRun-IsIdle d _ (run_ota_precheck_same json d) h))
    where
      by_result :
          (r : Bool × Daemon) → IsIdle r.1 → IsRunning (prechecked_by p system backend json r)
      by_result (true, e) k = start_ota_child-IsRunning json e k
      by_result (false, e) k = inl k

  pub process_command-IsRunning :
      (d : Daemon) → IsRunning d → IsRunning (process_command p system backend d)
  unfolding process_command popped_by
  process_command-IsRunning d (inr h) = simp h.is_busy (inr h)
  process_command-IsRunning d (inl h) =
      simp h.not_busy (by_result (backend.pop_command 4096 d.world))
    where
      by_result : (r : Result Bytes × World) → IsRunning (popped_by p system backend r d)
      by_result (err message, w) = inl (SameRun-IsIdle d (record d { world = w }) (ground arith) h)
      by_result (ok json, w) =
          start_ota_command-IsRunning json (record d { world = w })
            (SameRun-IsIdle d (record d { world = w }) (ground arith) h)

  pub ensure_session_same :
      (env : Environment) (d : Daemon) → SameRun d (ensure_session p env system backend d)
  unfolding ensure_session session_by connect_session
  ensure_session_same env d = ground arith
