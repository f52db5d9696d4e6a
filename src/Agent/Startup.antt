-- ===== src/Agent/Startup.antt =====
-- The recovery of ota-agent.cpp at the start of the system, and main.
pub mod Attempts
pub mod Ends
pub mod Settled
use alientek.Prelude.{
  ℕ, zero, suc, Bool, true, false, not, ◌||◌, Option, none, some, List, [], ◌∷◌, if◌then◌else◌,
  Bytes, text, str_eq,
}
use alientek.World.{
  World, Platform, Errno, enodev, printed, slept, Result, ok, err, Io, ◌>>=◌, put_log, is_enoent,
}
use alientek.Defaults.{Environment, read_path_setting, load_default_file}
use alientek.State.{OtaState}
use alientek.State.Store.{save, load}
use alientek.State.Environment.{load_from_environment, save_to_environment}
use alientek.Exec.Recovery.{recover_pending_state}
use alientek.Download.{Rounds}
use alientek.Backend.{Backend}
use alientek.Backend.Report.{report_committed_state, report_failure_state}
use alientek.Agent.Commands.{run_apply, run_pull_latest, run_mqtt_precheck, run_mqtt_command}

-- What loadStateForRecovery returns: 2, 0, 1 and -1, with the state where it is used.
pub data Loaded : Type 0 where
  from_file from_environment : OtaState → Loaded
  nothing broken : Loaded

-- isPendingRecovery
unfoldable pub is_pending_recovery : OtaState → Bool
unfolding str_eq
is_pending_recovery state =
    str_eq state.phase (text "upgrading") || str_eq state.phase (text "installing")

-- isFinalRecoveryPhase
unfoldable pub is_final_recovery_phase : Bytes → Bool
unfolding str_eq
is_final_recovery_phase phase = str_eq phase (text "committed") || str_eq phase (text "failed")

-- The value of recoverPendingAtStartup: 0 and 1.
pub data Attempt : Type 0 where
  done retry : Attempt

unfoldable pub is_enodev : Errno → Bool
is_enodev enodev = true
is_enodev _ = false

module _ (p : Platform) (getenv : Environment) (report_final : OtaState → Io (Unit {0})) where
  -- Lines 405 to 408.
  unfoldable pub loaded_from : Bool × OtaState × World → Loaded × World
  loaded_from (true, state, w) = (from_environment state, w)
  loaded_from (false, state, w) = (if is_enoent w.errno then nothing else broken, w)

  -- Lines 402 to 408, behind otaStateLoad.
  unfoldable pub loaded_by : Result OtaState × World → Loaded × World
  loaded_by (ok state, w) = (from_file state, w)
  loaded_by (err message, w) =
      if is_enoent w.errno then loaded_from (load_from_environment p w) else (broken, w)

  -- loadStateForRecovery
  unfoldable pub load_state_for_recovery : Bytes → World → Loaded × World
  load_state_for_recovery path w = loaded_by (load p path w)

  -- Lines 445 to 449.
  unfoldable pub stored : Result (Unit {0}) × World → Option Attempt × World
  stored (ok u, w) = (some done, w)
  stored (err message, w) = (some retry, w)

  -- Lines 438 to 449 of clearStalePendingFromEnvironment, on what the environment gives: `none` is
  -- 0, `some done` is 1, and `some retry` is -1.
  unfoldable pub clear_by : Bytes → Bool × OtaState × World → Option Attempt × World
  clear_by path (false, state, w) = (none, w)
  clear_by path (true, state, w) =
      if not (is_final_recovery_phase state.phase) then (none, w) else stored (save p path state w)

  -- clearStalePendingFromEnvironment
  unfoldable pub clear_stale_pending : Bytes → OtaState → World → Option Attempt × World
  clear_stale_pending path state w =
      if not (is_pending_recovery state)
      then (none, w)
      else clear_by path (load_from_environment p w)

  unfoldable pub attempt_of : Result (Unit {0}) × World → Attempt × World
  attempt_of (ok u, w) = (done, w)
  attempt_of (err message, w) = (retry, w)

  -- reportAndSaveRecovery; `report_final` is the report of lines 454 to 456
  unfoldable pub report_and_save_recovery : Bytes → OtaState → World → Attempt × World
  report_and_save_recovery path state w =
      attempt_of
        ((report_final state >>= λ u. (save p path state >>= λ v. save_to_environment p state)) w)

  -- Lines 498 to 512.
  unfoldable pub judged : Bytes → Result OtaState × World → Attempt × World
  judged path (ok state, w) = report_and_save_recovery path state w
  judged path (err message, w) = (if is_enodev w.errno then done else retry, w)

  -- Lines 495 to 512.
  unfoldable pub recover_state : Bytes → OtaState → World → Attempt × World
  recover_state path state w =
      if not (is_pending_recovery state)
      then (done, w)
      else judged path (recover_pending_state p getenv state w)

  -- Lines 487 to 512.
  unfoldable pub cleared : Bytes → OtaState → Option Attempt × World → Attempt × World
  cleared path state (some attempt, w) = (attempt, w)
  cleared path state (none, w) = recover_state path state w

  unfoldable pub recover_loaded : Bytes → Loaded × World → Attempt × World
  recover_loaded path (broken, w) = (retry, w)
  recover_loaded path (nothing, w) = (done, w)
  recover_loaded path (from_file state, w) = cleared path state (clear_stale_pending path state w)
  recover_loaded path (from_environment state, w) = recover_state path state w

  -- recoverPendingAtStartup
  unfoldable pub recover_pending_at_startup : Bytes → World → Attempt × World
  recover_pending_at_startup path w = recover_loaded path (load_state_for_recovery path w)

  -- The loop of completeStartupRecovery, with the attempts that are left.
  unfoldable pub retry_loop : ℕ → Bytes → Attempt × World → Attempt × World
  retry_loop attempts path (done, w) = (done, w)
  retry_loop zero path (retry, w) = (retry, w)
  retry_loop (suc attempts) path (retry, w) =
      retry_loop attempts path (recover_pending_at_startup path (put_log slept w))

  -- completeStartupRecovery
  unfoldable pub complete_startup_recovery : Bytes → World → World
  complete_startup_recovery path w = (retry_loop 30 path (recover_pending_at_startup path w)).1

  -- otaAgentRunRecovery
  unfoldable pub run_recovery : World → ℕ × World
  run_recovery w = (
    0,
    complete_startup_recovery
        (read_path_setting getenv (text "OTA_AGENT_STATE_FILE")
          (text "/var/lib/ota-agent/state.json"))
        (put_log (printed (text "ota-agent recovery mode\n")) w),
  )

-- loadAgentDefaultFile: the environment with the settings file
unfoldable pub load_agent_default_file :
    (Bytes → Bytes → Bool) → (Bytes → Option Bytes) → Environment → Environment
load_agent_default_file room open_file env =
    load_default_file room open_file
      (read_path_setting env (text "OTA_AGENT_CONFIG_FILE") (text "/etc/default/ota-agent")) env

-- fopen of the settings file
abbrev opens : Platform → World → Bytes → Option Bytes
opens p w path = elim (p.open_error w path) [ some e ↦ none | none ↦ w.files path ]

-- Lines 454 to 456 of reportAndSaveRecovery.
unfoldable pub report_final_state :
    Backend → Environment → (World → Bool) → OtaState → Io (Unit {0})
unfolding str_eq
report_final_state backend getenv puts_error state =
    if str_eq state.phase (text "committed")
    then report_committed_state backend getenv puts_error state
    else report_failure_state backend getenv puts_error state state.detail

module _ (p : Platform) (room : Bytes → Bytes → Bool) (backend : Backend)
    (puts_error : World → Bool) where
  -- Lines 548 to 566, with the settings loaded.
  dispatch : Environment → (World → List Bytes → Rounds) → List Bytes → World → Option (ℕ × World)
  unfolding str_eq
  dispatch getenv rounds [] w =
      some (run_recovery p getenv (report_final_state backend getenv puts_error) w)
  dispatch getenv rounds (command ∷ args) w =
      if str_eq command (text "--apply")
      then some (run_apply p getenv rounds args w)
      else if str_eq command (text "--mqtt-precheck")
      then run_mqtt_precheck p getenv args w
      else if str_eq command (text "--mqtt-command")
      then run_mqtt_command p getenv rounds args w
      else if str_eq command (text "--pull-latest")
      then some (run_pull_latest p getenv rounds args w)
      else some (2, w)

  -- main, in the environment `env`, on the arguments behind the name of the program
  unfoldable pub main :
      Environment → (World → List Bytes → Rounds) → List Bytes → World → Option (ℕ × World)
  unfolding dispatch
  main env rounds args w = dispatch (load_agent_default_file room (opens p w) env) rounds args w
