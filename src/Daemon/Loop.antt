-- ===== src/Daemon/Loop.antt =====
-- mqtt-agent.cpp, lines 540 to 560 and 598 to 625: the heartbeat and the loop of the daemon.
use alientek.Prelude.{
  ℕ, zero, suc, ◌+◌, Bool, true, not, ◌&&◌, ◌||◌, Option, none, some, ◌++◌, ◌==◌, ltb,
  if◌then◌else◌, Bytes, text, fit,
}
use alientek.World.{World, Platform, Result, ok, err, printed, put_log}
use alientek.Defaults.{Environment}
use alientek.State.Int.{ℤ, pos, negsuc, print_nat}
use alientek.Backend.{Backend}
use alientek.Daemon.{Daemon, Host, put_world, start_daemon, load_configs, load_runtime_settings}
use alientek.Daemon.Broker.{ensure_session}
use alientek.Daemon.Child.{process_command, poll_ota_output}

-- What is around the daemon.
pub record System : Type 0 where
  pub platform : Platform
  pub host : Host
  pub backend : Backend

-- Line 545.
unfoldable pub is_off : ℤ → Bool
is_off (pos n) = n == 0
is_off (negsuc n) = true

-- now - g_lastHeartbeatAt < g_heartbeatSec
unfoldable pub is_early : ℕ → ℕ → ℤ → Bool
is_early now at (pos n) = ltb now (at + n)
is_early now at (negsuc n) = ltb (now + suc n) at

unfoldable pub heartbeat_payload : Bytes → ℕ → Bytes
heartbeat_payload id now = fit 256 (
    text "{\"clientId\":\""
    ++ (id ++ (text "\",\"phase\":\"heartbeat\",\"ts\":" ++ (print_nat now ++ text "}"))))

-- Lines 557 to 559, on what otaMqttPublishStatus gives.
unfoldable pub beaten_by : ℕ → Result (Unit {0}) × World → Daemon → Daemon
beaten_by now (ok u, w) d = record d { world = w; last_heartbeat_at = now }
beaten_by now (err message, w) d = record d { world = w }

module _ (s : System) where
  -- maybeHeartbeat
  unfoldable pub maybe_heartbeat : Daemon → Daemon
  maybe_heartbeat d =
      let now = s.host.time d.world in
      if is_off d.heartbeat_sec || not (s.backend.is_connected d.world)
      then d
      else if not (d.last_heartbeat_at == 0) && is_early now d.last_heartbeat_at d.heartbeat_sec
      then d
      else beaten_by now
          (s.backend.publish_status d.heartbeat_topic (heartbeat_payload d.client_id now) d.world) d

  -- Lines 619 to 621.
  unfoldable pub keep_session : Environment → Daemon → Daemon
  keep_session env d = if d.auto_mode then ensure_session s.platform env s.host s.backend d else d

  -- The body of the loop of main, lines 616 to 622.
  unfoldable pub main_round : Environment → Daemon → Daemon
  main_round env d =
      let d1 = process_command s.platform s.host s.backend d in
      let d2 = poll_ota_output s.platform s.host s.backend d1 in
      let d3 = keep_session env (maybe_heartbeat d2) in
      put_world (λ w. (s.backend.yield (pos 200) w).1) d3

-- The loop of main, with what is around the daemon in each round, until the stop or for the first
-- `n` rounds.
unfoldable pub main_loop : (ℕ → System) → Environment → ℕ → Daemon → Daemon
main_loop systems env zero d = d
main_loop systems env (suc n) d =
    let next = main_loop (λ i. systems (suc i)) env n (main_round (systems 0) env d) in
    if (systems 0).host.stop_requested d.world then d else next

-- main, for the first `n` rounds; `none` is the refusal of the settings
unfoldable pub daemon_main :
    (Bytes → Bytes → Bool)
    → (Bytes → Option Bytes)
    → Environment
    → (ℕ → System)
    → ℕ
    → World
    → Option Daemon
daemon_main room open_file env systems n w =
    let configured = load_configs room open_file env in
    elim (load_runtime_settings configured (start_daemon w)) [
      | none ↦ none
      | some d ↦ some (
          main_loop systems configured n (
            ensure_session (systems 0).platform configured (systems 0).host (systems 0).backend
              (put_world (put_log (printed (text "mqtt-agent foreground mode\n"))) d)))
    ]
