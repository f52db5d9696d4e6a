-- ===== src/Tests/Sessions.antt =====
-- Runs of the backends of ota-mqtt.cpp on concrete inputs.
use alientek.Prelude.{
  true, false, some, List, [], ◌∷◌, ◌++◌, ◌≡◌, refl, map, if◌then◌else◌, arith, text, c_str,
}
use alientek.World.{World, eio, enosys, enotconn, ok, err, printed, put_log, set_errno}
use alientek.World.Globals.{no_session}
use alientek.State.Int.{pos}
use alientek.Backend.{stub, is_blank}
use alientek.Backend.Pending.{arrived}
use alientek.Backend.Paho.{Paho, connect, paho_backend}
use alientek.Backend.Sound.{IsSound}
use alientek.Backend.Steps.{connects, here, next_step, Reach-IsSound}
use alientek.Backend.Mailbox.{
  Action, comes, takes, waiting, all_accepted, all_given, run, run-IsQueue,
}
use alientek.Backend.Alive.{IsReachable, rounds, sends, rounds_alive}
use alientek.Backend.Report.{report_committed_state}
use alientek.Backend.Printed.{committed_state, report_committed_state_lem}
use alientek.Mqtt.Text.{validate_utf8_text, escape_json_byte, validate_loop}
use alientek.Mqtt.Utf8.{utf8_sequence_length, is_valid_utf8_three_byte}
use alientek.Mqtt.Payload.{validate_status_utf8}
use alientek.Mqtt.Payload.Built.{status_json}
use alientek.Tests.Machine.{booted, pending, no_settings}

-- A client on which every call succeeds and nothing arrives.
abbrev pub answering : Paho
answering = record {
  create = λ w uri id. true;
  set_callbacks = λ w. true;
  connect = λ w. record { success = true; callbacks = [] };
  subscribe = λ w topic. record { success = true; callbacks = [] };
  publish = λ w topic payload. record { success = true; callbacks = [] };
  wait = λ w. record { success = true; callbacks = [] };
  disconnect = λ w. [];
  yield = λ w. [];
  meanwhile = λ w. [];
}

reach_example : IsSound (connect answering (text "broker") (pos 1883) (text "ota-agent") booted).1
reach_example =
    Reach-IsSound refl
      (next_step here (connects answering booted (text "broker") (pos 1883) (text "ota-agent")))

-- A client that always has a message while a command is taken out.
abbrev racing : Paho
racing = record answering { meanwhile = λ w. arrived (some (text "late")) ∷ [] }

-- A command, one that comes too early, the call that takes the first, and a third command.
abbrev arrivals : List Action
arrivals =
    comes (arrived (some (text "first")))
    ∷ comes (arrived (some (text "second")))
    ∷ takes 4096
    ∷ comes (arrived (some (text "third")))
    ∷ []

queue_example :
    map c_str (waiting booted.mqtt.pending ++ all_accepted racing arrivals booted)
    ≡ all_given racing arrivals booted
      ++ map c_str (waiting (run racing arrivals booted).mqtt.pending)
queue_example = run-IsQueue racing arrivals booted

-- A session that has lost its connection.
abbrev dropped : World
dropped = record booted {
  mqtt = record no_session {
    client = true;
    server_uri = text "tcp://broker:1883";
    client_id = text "ota-agent";
    command_topic = text "device/ota/command";
  };
}

answering-IsReachable : IsReachable answering
answering-IsReachable = record {
  creates = λ w uri id. refl;
  sets_callbacks = λ w. refl;
  connects = λ w. refl;
  connect_lasts = λ w. tt;
  subscribe_lasts = λ w topic. tt;
  yield_lasts = λ w. tt;
}

alive_example :
    ((rounds (λ i. answering) 200 3 dropped).mqtt.connected ≡ true)
    × ((rounds (λ i. answering) 200 3 dropped).log ≡ sends dropped.mqtt dropped.log)
unfolding is_blank
alive_example =
    rounds_alive (λ i. answering) 200 2 dropped (λ i. answering-IsReachable) refl refl refl

report_example :
    (report_committed_state stub no_settings (λ w. false) pending booted ≡ (
      if false then (err [], set_errno eio booted) else (
        ok tt,
        put_log
            (printed (status_json (committed_state pending) ++ text "\n"))
            (set_errno enosys booted),
      )))
    × ((paho : Paho)
        → booted.mqtt.connected ≡ false
        → report_committed_state (paho_backend paho) no_settings (λ w. false) pending booted
          ≡ (err [], set_errno enotconn booted))
unfolding validate_utf8_text is_blank escape_json_byte validate_status_utf8 validate_loop
    utf8_sequence_length is_valid_utf8_three_byte
report_example =
    report_committed_state_lem no_settings (λ w. false) pending booted (omega arith) refl
      (omega arith)
