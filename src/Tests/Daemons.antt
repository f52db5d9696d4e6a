-- ===== src/Tests/Daemons.antt =====
-- Runs of mqtt-agent on concrete inputs.
use alientek.Prelude.{
  Bool, true, false, Option, none, some, List, [], ◌∷◌, ◌≡◌, refl, arith, Bytes, text, take,
  is_space, is_digit,
}
use alientek.State.Int.{scan_int}
use alientek.Defaults.{load_default_file}
use alientek.Backend.{stub}
use alientek.Daemon.{
  Daemon, Host, again, start_daemon, load_runtime_settings, parse_port, load_configs,
}
use alientek.Daemon.Lines.{set_line}
use alientek.Daemon.Lines.Split.{lines_of, join, emit_lines, consume_chunks, consume_chunks-Lines}
use alientek.Daemon.Network.{scan_network}
use alientek.Daemon.Network.Bits.{prefix_mask}
use alientek.Daemon.Network.Scan.{Searched, scan_network_complete}
use alientek.Daemon.Loop.{System, daemon_main}
use alientek.Daemon.Running.{IsRunning}
use alientek.Daemon.Rounds.{daemon_main-IsRunning}
use alientek.Tests.Machine.{machine, booted, no_settings}

-- A system without a network in which every other call succeeds, at the time 100.
abbrev offline : Host
offline = record {
  time = λ w. 100;
  interfaces = λ w. none;
  pton = λ s. true;
  socket = λ w. true;
  get_flags = λ w. true;
  set_flags = λ w. true;
  connect = λ w ip port. none;
  select = λ w timeout. true;
  so_error = λ w. some 0;
  fork = λ w args. none;
  fdopen = λ w. true;
  reads = λ w. record { pieces = []; last = again };
  stop_requested = λ w. false;
}

abbrev output : List Bytes
output = text "OTA: 1%\nO" ∷ text "TA: 2%\r" ∷ text "\nend" ∷ []

lines_example :
    consume_chunks stub output (start_daemon booted)
    ≡ set_line
        (take 1023 (lines_of (join output)).1)
        (emit_lines stub (lines_of (join output)).0 (start_daemon booted))
lines_example = consume_chunks-Lines stub output (start_daemon booted) refl

-- The network of 192.168.1.1 with two bits for the hosts.
scan_example :
    Searched offline 1883 2 0xc0a80101
      (scan_network offline 1883 64 (0xc0a80101, prefix_mask 32 2) booted)
scan_example =
    scan_network_complete offline 1883 2 0xc0a80101 booted (omega arith) (omega arith) (omega arith)

abbrev alone : System
alone = record { platform = machine; host = offline; backend = stub }

abbrev room : Bytes → Bytes → Bool
room name value = true

abbrev no_files : Bytes → Option Bytes
no_files path = none

abbrev value_of : Option Daemon → Daemon
value_of none = start_daemon booted
value_of (some d) = d

abbrev after_two : Daemon
after_two = value_of (daemon_main room no_files no_settings (λ i. alone) 2 booted)

daemon_main_example : IsRunning after_two
unfolding daemon_main load_runtime_settings parse_port scan_int load_configs load_default_file
    is_space is_digit
daemon_main_example =
    daemon_main-IsRunning room no_files no_settings (λ i. alone) 2 booted {d = after_two} refl
