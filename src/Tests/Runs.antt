-- ===== src/Tests/Runs.antt =====
-- The theorems on states and on runs of programs, on the machine of Machine.
use alientek.Prelude.{some, some, ◌≡◌, refl, arith, text, before, str_eq}
use alientek.World.{ok}
use alientek.State.{IsState}
use alientek.State.Json.{write_state, read_state}
use alientek.State.RoundTrip.{read_state-write_state}
use alientek.State.Bounds.{IsBounded, OnSome, read_state-IsBounded}
use alientek.State.Store.{temp_path, save, load}
use alientek.State.Saved.{Replaces, save_atomic, load-save}
use alientek.Discover.Resolved.{ChoosesUrl, choose_url_lem}
use alientek.Exec.{read_environment_value, run_upgrade}
use alientek.Exec.Checks.{Installs, run_upgrade-Installs}
use alientek.Exec.Recovery.{
  is_slot, read_normal, normalize_environment_value, recover_pending_state,
  read_recovery_environment, IsVerdict, recover_pending_state-IsVerdict,
}
use alientek.Exec.Cmdline.{read_current_slot}
use alientek.Tests.Machine.{machine, booted, pending, no_settings}

pending-IsState : IsState pending
pending-IsState = record {
  request_id_fits = ground arith;
  version_fits = ground arith;
  target_slot_fits = ground arith;
  phase_fits = ground arith;
  result_fits = ground arith;
  detail_fits = ground arith;
  auto_reboot_fits = omega arith;
}

read_state_example : read_state (write_state pending) ≡ some pending
read_state_example = read_state-write_state pending pending-IsState

read_state-IsBounded_example : OnSome IsBounded (read_state (text "{\"requestId\":\"a\""))
read_state-IsBounded_example = read_state-IsBounded (text "{\"requestId\":\"a\"")

save_example :
    Replaces
      (save machine (text "/s") pending booted).0
      (text "/s")
      pending
      booted
      (save machine (text "/s") pending booted).1
      (text "/s")
unfolding temp_path
save_example = save_atomic machine (text "/s") pending booted (text "/s") (ground arith)

load_example :
    load machine (text "/s") (save machine (text "/s") pending booted).1
    ≡ (ok pending, (save machine (text "/s") pending booted).1)
unfolding save
load_example = load-save machine (text "/s") pending booted pending-IsState refl refl refl

choose_example :
    ChoosesUrl machine 256 512 (text "http://h") (text "<a href=\"alientek-image-update-1.swu\">")
choose_example =
    choose_url_lem machine 256 512 (text "http://h")
      (text "<a href=\"alientek-image-update-1.swu\">")

upgrade_example :
    Installs machine 256
      (text "/p.swu")
      (text "0")
      (run_upgrade machine 256 (text "/p.swu") booted)
      (read_environment_value machine 256 (text "ota_pending") 16 booted).1
unfolding read_environment_value str_eq before
upgrade_example =
    run_upgrade-Installs machine 256 (text "/p.swu") booted {pending = text "0\n"} (ground arith)
      refl

recover_example :
    IsVerdict pending
      (text "A")
      (text "A", text "A", text "0")
      (recover_pending_state machine no_settings pending booted)
      (read_recovery_environment machine booted).1
unfolding read_current_slot read_recovery_environment is_slot read_normal
    normalize_environment_value
recover_example =
    recover_pending_state-IsVerdict machine no_settings pending booted refl {current = text "A"}
      {values = (text "A", text "A", text "0")} (booted, refl, refl)
