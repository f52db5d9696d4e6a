-- ===== src/Tests/Machine.antt =====
-- A machine on which every call succeeds, with working fw_printenv and fw_setenv.
use alientek.Prelude.{
  false, Option, none, some, List, [], ◌∷◌, ◌++◌, if◌then◌else◌, Bytes, text, str_eq,
}
use alientek.World.Globals.{no_session}
use alientek.World.{World, Platform, no_error, Ran, exited, started, Store, update}
use alientek.State.{OtaState}
use alientek.State.Int.{pos}

abbrev answer : Store → Bytes → Bytes → Ran
answer files output name = record {
  files = files;
  boot = λ k. none;
  output = output;
  read_error = none;
  wait_errors = [];
  exit = exited 0;
}

-- The answers to a program and its arguments: fw_printenv -n NAME, fw_setenv NAME VALUE, any other.
abbrev run_child : World → List Bytes → Ran
run_child w (program ∷ first ∷ second ∷ []) =
    if str_eq program (text "fw_printenv")
    then record (answer w.files [] first) {
      boot = w.boot;
      output = elim (w.boot second) [ none ↦ [] | some value ↦ value ++ text "\n" ];
      exit = exited (elim (w.boot second) [ none ↦ 1 | some value ↦ 0 ]);
    }
    else record (answer w.files [] first) {
      boot =
          if str_eq program (text "fw_setenv") then update w.boot first (some second) else w.boot;
    }
run_child w args = record (answer w.files [] []) { boot = w.boot }

abbrev pub machine : Platform
machine = record {
  pid = λ w. 7;
  strerror = λ e. text "error";
  open_error = λ w path. none;
  read_error = λ w path. none;
  create_error = λ w path. none;
  write_error = λ w path s. none;
  rename_error = λ w from to. none;
  unlink_error = λ w path. none;
  lock_error = λ w path. none;
  mkstemp = λ w template. some (text "/var/tmp/ota-listing-a");
  pipe_error = λ w. none;
  spawn = λ w args. started (run_child w args);
}

-- The U-Boot variables of a machine on slot A.
abbrev pub slot_a : Store
slot_a name =
    if str_eq name (text "active_slot")
    then some (text "A")
    else if str_eq name (text "last_good_slot")
    then some (text "A")
    else if str_eq name (text "upgrade_available")
    then some (text "0")
    else if str_eq name (text "ota_pending")
    then some (text "0")
    else none

abbrev pub no_settings : Bytes → Option Bytes
no_settings name = none

-- A machine that has booted slot A.
abbrev pub booted : World
booted = record {
  files =
      update (λ path. none) (text "/proc/cmdline")
        (some (text "console=tty1 root=/dev/mmcblk0p2 rw\n"));
  boot = slot_a;
  locks = λ path. false;
  errno = no_error;
  log = [];
  high_water = 0;
  mqtt = no_session;
}

abbrev pub pending : OtaState
pending = record {
  request_id = text "r1";
  version = text "1.2";
  target_slot = text "A";
  phase = text "upgrading";
  result = [];
  detail = [];
  auto_reboot = pos 1;
}
