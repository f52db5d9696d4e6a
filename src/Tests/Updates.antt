-- ===== src/Tests/Updates.antt =====
-- The theorems on the pipeline, the commands and the recovery, on the machine of Machine.
use alientek.Prelude.{
  arith, ℕ, true, if◌then◌else◌, Option, some, none, List, [], ◌∷◌, ◌++◌, ◌⊎◌, refl, Bytes, text,
  str_eq, starts_with_case, before, c_str, strip_end,
}
use alientek.World.{World, Platform, Io, ok, put_file, started, exited, is_enoent}
use alientek.State.{OtaState}
use alientek.State.Json.{write_state}
use alientek.Defaults.{read_path_setting}
use alientek.State.Store.{load, save, acquire_lock}
use alientek.State.Environment.{
  load_from_environment, required, read_env_value, load_optional, optional_field,
  save_to_environment, write_env_value, set_ended,
}
use alientek.Exec.{
  wait_for_command, child_ended, run_upgrade, run_command, check_upgrade_allowed,
  read_environment_value, judge_pending, prepare_target_slot, set_target_slot,
}
use alientek.Download.{
  Rounds, read_command_output, download_package, download_package_with_progress,
  fetch_content_length, fetch_by, fetched, wait_out, content_length, download_by, poll_loop,
  report_size, curl_ended,
}
use alientek.Download.Checksum.{
  is_valid_sha256, verify_sha256, calculate_sha256, read_sum, compare_sha256, Verified,
  verify_sha256-Verified,
}
use alientek.Mqtt.Command.{OtaMqttCommand}
use alientek.Agent.Startup.{complete_startup_recovery}
use alientek.Agent.Startup.Settled.{Settles, complete_startup_recovery-Settles}
use alientek.Agent.{
  apply_state, save_phase, phase_saved, execute_apply_pipeline, load_state_for_apply,
}
use alientek.Agent.Pipeline.{Reaches, Stops, execute_apply_pipeline-Reaches}
use alientek.Agent.Commands.{check_command, run_apply, apply_package, apply_acquired, apply_locked}
use alientek.Agent.Commands.Checked.{Outcome, check_command-Outcome}
use alientek.Agent.Commands.Applied.{Applies, apply_command, run_apply-Applies}
use alientek.Agent.{execute_pull_latest_pipeline}
use alientek.Agent.Pipeline.Pull.{Pulls, execute_pull_latest_pipeline-Pulls}
use alientek.World.{Ran, after_child, unlink}
use alientek.Download.{curl_args}
use alientek.Download.Percents.{Reports, download_package_with_progress-Reports}
use alientek.Agent.{on_pull_download_progress}
use alientek.Tests.Machine.{machine, slot_a, booted, pending, no_settings}

abbrev quick : World → List Bytes → Rounds
quick w args = record { before_end = []; last_size = 0 }

abbrev digest : Bytes
digest = text "0123456789abcdef0123456789abcdef0123456789abcdef0123456789abcdef"

-- What a program prints: sha256sum the digest, fw_printenv a variable of slot A.
abbrev printed_by : List Bytes → Bytes
printed_by (program ∷ first ∷ second ∷ []) =
    if str_eq program (text "sha256sum")
    then digest ++ text "  /p.swu\n"
    else elim (slot_a second) [ none ↦ [] | some value ↦ value ++ text "\n" ]
printed_by args = []

abbrev run_of : List Bytes → World → Ran
run_of args w = record {
  files = w.files;
  boot = w.boot;
  output = printed_by args;
  read_error = none;
  wait_errors = [];
  exit = exited 0;
}

-- A machine whose programs all work and leave no trace.
abbrev summing : Platform
summing = record machine { spawn = λ w args. started (run_of args w) }

pipeline_example :
    Reaches summing quick
      (text "http://h/p.swu")
      digest
      (text "/p.swu")
      (text "/s")
      pending
      booted
      (execute_apply_pipeline summing quick
        (text "http://h/p.swu")
        digest
        (text "/p.swu")
        (text "/s")
        pending
        booted)
    ⊎ Stops booted (
        execute_apply_pipeline summing quick
          (text "http://h/p.swu")
          digest
          (text "/p.swu")
          (text "/s")
          pending
          booted)
pipeline_example =
    execute_apply_pipeline-Reaches summing quick (text "http://h/p.swu") digest (text "/p.swu")
      (text "/s") pending booted

verify_example : Verified summing 256 (text "/p.swu") digest booted
unfolding verify_sha256 calculate_sha256 read_sum compare_sha256 read_command_output
    wait_for_command child_ended str_eq is_valid_sha256 starts_with_case before
verify_example = verify_sha256-Verified summing 256 (text "/p.swu") digest booted refl

abbrev command_text : Bytes
command_text =
    text "{\"requestId\":\"r2\",\"version\":\"1.2\",\"url\":\"http://h/p.swu\",\"autoReboot\":true,"
    ++ text "\"sha256\":\"0123456789abcdef0123456789abcdef0123456789abcdef0123456789abcdef\"}"

abbrev accept : OtaState → OtaMqttCommand → World → Option (ℕ × World)
accept state command w = some (0, w)

check_command_example :
    Outcome machine no_settings command_text accept booted
      (check_command machine no_settings command_text accept booted)
check_command_example = check_command-Outcome machine no_settings command_text accept booted

run_apply_example :
    Applies summing no_settings quick
      (text "http://h/p.swu")
      digest
      (text "/p.swu")
      true
      booted
      (run_apply summing no_settings quick
        (apply_command (text "http://h/p.swu") digest (text "/p.swu") true)
        booted).1
unfolding run_apply apply_package apply_acquired apply_locked acquire_lock load_state_for_apply
    load_from_environment execute_apply_pipeline str_eq load read_path_setting is_enoent apply_state
    required read_env_value c_str before strip_end load_optional check_upgrade_allowed
    read_environment_value optional_field judge_pending prepare_target_slot set_target_slot
    save_phase phase_saved save save_to_environment write_env_value set_ended download_package
    download_package_with_progress fetch_content_length fetch_by fetched wait_out
    read_command_output content_length download_by poll_loop report_size curl_ended verify_sha256
    calculate_sha256 read_sum compare_sha256 is_valid_sha256 starts_with_case run_upgrade
    run_command wait_for_command child_ended
run_apply_example =
    run_apply-Applies summing no_settings quick (text "http://h/p.swu") digest (text "/p.swu") true
      booted refl

abbrev report_well : OtaState → Io (Unit {0})
report_well state w = (ok tt, w)

-- An update that is pending in the state file, with its outcome in the U-Boot environment.
abbrev committed : World
committed = record (put_file (text "/s") (some (write_state pending)) booted) {
  boot = λ name.
      if str_eq name (text "ota_phase")
      then some (text "committed")
      else if str_eq name (text "ota_target_slot")
      then some (text "A")
      else if str_eq name (text "ota_request_id")
      then some (text "r1")
      else some (text "1.2");
}

recovery_example :
    Settles machine no_settings report_well
      (text "/s")
      committed
      (complete_startup_recovery machine no_settings report_well (text "/s") committed)
recovery_example =
    complete_startup_recovery-Settles machine no_settings report_well (text "/s") committed

pull_example :
    Pulls summing quick (text "http://h/p.swu") (text "/p.swu") (text "/s") pending booted (
      execute_pull_latest_pipeline summing quick
        (text "http://h/p.swu")
        (text "/p.swu")
        (text "/s")
        pending
        booted)
    ⊎ Stops booted (
        execute_pull_latest_pipeline summing quick
          (text "http://h/p.swu")
          (text "/p.swu")
          (text "/s")
          pending
          booted)
pull_example =
    execute_pull_latest_pipeline-Pulls summing quick (text "http://h/p.swu") (text "/p.swu")
      (text "/s") pending booted

download_package_with_progress-Reports_example :
    Reports summing 256 quick on_pull_download_progress
      (text "/p.swu")
      0
      (on_pull_download_progress 0 (
        after_child
          (curl_args (text "/p.swu") (text "http://h/p.swu"))
          (run_of
            (curl_args (text "/p.swu") (text "http://h/p.swu"))
            (fetch_content_length summing
              (text "http://h/p.swu")
              (unlink summing (text "/p.swu") booted)).1)
          (fetch_content_length summing
            (text "http://h/p.swu")
            (unlink summing (text "/p.swu") booted)).1))
      (download_package_with_progress summing 256 quick
        (some on_pull_download_progress)
        (text "http://h/p.swu")
        (text "/p.swu")
        booted)
download_package_with_progress-Reports_example =
    download_package_with_progress-Reports summing 256 quick on_pull_download_progress
      (text "http://h/p.swu") (text "/p.swu") booted (ground arith) (ground arith) refl
