-- ===== src/Daemon/Rounds.antt =====
-- The rounds of the loop of mqtt-agent.cpp, and the run of ota-agent.
use mathlib.Core.Path.{subst}
use mathlib.Core.Option.{none-ne-some, some-injective}
use alientek.Prelude.{
  ℕ, zero, suc, Bool, Bool-cases, Option, none, some, Option-cases, ◌≡◌, inl, inr, refl, ap, arith,
  Bytes, sym, ◌∙◌, text,
}
use alientek.World.{World, put_log, printed}
use alientek.Defaults.{Environment}
use alientek.State.Int.{pos}
use alientek.Daemon.{
  Daemon, put_world, start_daemon, load_configs, load_settings, load_runtime_settings,
}
use alientek.Daemon.Broker.{ensure_session}
use alientek.Daemon.Child.{process_command, poll_ota_output}
use alientek.Daemon.Loop.{
  System, beaten_by, maybe_heartbeat, keep_session, main_round, main_loop, daemon_main,
}
use alientek.Daemon.Running.{
  IsIdle, IsRunning, SameRun, SameRun-IsIdle, SameRun-IsRunning, poll_ota_output-IsRunning,
  process_command-IsRunning, ensure_session_same,
}

module _ (s : System) where
  maybe_heartbeat_same : (d : Daemon) → SameRun d (maybe_heartbeat s d)
  unfolding maybe_heartbeat beaten_by
  maybe_heartbeat_same d = ground arith

  keep_session_same : (env : Environment) (d : Daemon) → SameRun d (keep_session s env d)
  unfolding keep_session
  keep_session_same env d = ground (arith, ensure_session_same s.platform s.host s.backend env d)

  main_round-IsRunning :
      (env : Environment) (d : Daemon) → IsRunning d → IsRunning (main_round s env d)
  unfolding main_round
  main_round-IsRunning env d h =
      let d1 = process_command s.platform s.host s.backend d in
      let d2 = poll_ota_output s.platform s.host s.backend d1 in
      let d3 = maybe_heartbeat s d2 in
      let d4 = keep_session s env d3 in
      let h1 = process_command-IsRunning s.platform s.host s.backend d h in
      let h2 = poll_ota_output-IsRunning s.platform s.host s.backend d1 h1 in
      let h3 = SameRun-IsRunning d2 d3 (maybe_heartbeat_same d2) h2 in
      let h4 = SameRun-IsRunning d3 d4 (keep_session_same env d3) h3 in
      let d5 = put_world (λ w. (s.backend.yield (pos 200) w).1) d4 in
      SameRun-IsRunning d4 d5 (refl, refl, refl, refl) h4

main_loop-IsRunning :
    (systems : ℕ → System) (env : Environment) (n : ℕ) (d : Daemon)
    → IsRunning d
    → IsRunning (main_loop systems env n d)
unfolding main_loop
main_loop-IsRunning systems env zero d h = h
main_loop-IsRunning systems env (suc n) d h =
    let g =
      main_loop-IsRunning (λ i. systems (suc i)) env n (main_round (systems 0) env d)
        (main_round-IsRunning (systems 0) env d h) in
    elim (Bool-cases ((systems 0).host.stop_requested d.world)) [ inl e ↦ rw e h | inr e ↦ rw e g ]

load_runtime_settings-IsIdle :
    (env : Environment) (w : World) {d : Daemon}
    → load_runtime_settings env (start_daemon w) ≡ some d
    → IsIdle d
unfolding load_runtime_settings load_settings
load_runtime_settings-IsIdle env w h = ground arith

-- After any number of rounds of main, with whatever is around it in each round: there is no run of
-- ota-agent, with neither its pipe, its process nor a part of a line left, or there is one, with its
-- pipe and its process, and the line read so far leaves room for its terminator.
pub daemon_main-IsRunning :
    (room : Bytes → Bytes → Bool) (open_file : Bytes → Option Bytes) (env : Environment)
    (systems : ℕ → System) (n : ℕ) (w : World) {d : Daemon}
    → daemon_main room open_file env systems n w ≡ some d
    → IsRunning d
unfolding daemon_main
daemon_main-IsRunning room open_file env systems n w {d} h =
    elim (Option-cases (load_runtime_settings configured (start_daemon w))) [
      | inl e ↦ absurd (none-ne-some d (sym (ap goes_on e) ∙ h))
      | inr (d1, e) ↦
          let k = load_runtime_settings-IsIdle configured w e in
          let q =
            some-injective (main_loop systems configured n (first d1)) d (sym (ap goes_on e) ∙ h) in
          subst IsRunning q
            (main_loop-IsRunning systems configured n (first d1) (inl (begins d1 k)))
    ]
  where
    configured : Environment
    configured = load_configs room open_file env

    first : Daemon → Daemon
    first d1 =
        ensure_session (systems 0).platform configured (systems 0).host (systems 0).backend
          (put_world (put_log (printed (text "mqtt-agent foreground mode\n"))) d1)

    goes_on : Option Daemon → Option Daemon
    goes_on none = none
    goes_on (some d1) = some (main_loop systems configured n (first d1))

    begins : (d1 : Daemon) → IsIdle d1 → IsIdle (first d1)
    begins d1 k =
        let d2 = put_world (put_log (printed (text "mqtt-agent foreground mode\n"))) d1 in
        let same =
          ensure_session_same (systems 0).platform (systems 0).host (systems 0).backend configured
            d2 in
        SameRun-IsIdle d2 (first d1) same (SameRun-IsIdle d1 d2 (refl, refl, refl, refl) k)
