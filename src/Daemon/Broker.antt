-- ===== src/Daemon/Broker.antt =====
-- mqtt-agent.cpp, lines 77 to 114 and 245 to 297: the address of the broker and the session with it.
use alientek.Prelude.{
  ℕ, ◌+◌, Bool, true, false, not, ◌&&◌, Option, none, some, [], ◌++◌, ◌==◌, ltb, if◌then◌else◌,
  Bytes, text, fit, before, fgets,
}
use alientek.World.{World, Platform, Result, ok, err, put_file}
use alientek.Defaults.{Environment, read_path_setting}
use alientek.State.Int.{pos}
use alientek.Backend.{Backend, is_blank}
use alientek.Daemon.{Daemon, Host, put_world}
use alientek.Daemon.Lines.{is_break}
use alientek.Daemon.Network.{probe_tcp_port, scan_lan_for_broker}

-- brokerCachePath
unfoldable pub broker_cache_path : Environment → Bytes
unfolding read_path_setting
broker_cache_path env =
    read_path_setting env (text "OTA_MQTT_BROKER_CACHE")
      (text "/var/lib/mqtt-agent/mqtt-broker.host")

-- Lines 95 to 98, on what fgets gives.
unfoldable pub cached_line : Option (Bytes × Bytes) → Option Bytes
cached_line none = none
cached_line (some (line, rest)) =
    let host = before is_break line in if is_blank host then none else some host

module _ (p : Platform) (env : Environment) where
  -- Lines 90 to 98, on a file that is open.
  unfoldable pub read_cached : ℕ → Bytes → World → Option Bytes
  read_cached size content w = elim (p.read_error w (broker_cache_path env)) [
    | some e ↦ none
    | none ↦ cached_line (fgets size content)
  ]

  -- loadCachedHost, into a buffer of `size` bytes
  unfoldable pub load_cached_host : ℕ → World → Option Bytes
  load_cached_host size w = elim (p.open_error w (broker_cache_path env)) [
    | some e ↦ none
    | none ↦ elim (w.files (broker_cache_path env)) [
      | none ↦ none
      | some content ↦ read_cached size content w
    ]
  ]

  -- Lines 112 and 113: what fprintf writes, whose failure nobody looks at.
  unfoldable pub write_cached : Bytes → World → World
  write_cached content w = elim (p.write_error w (broker_cache_path env) content) [
    | some (e, part) ↦ put_file (broker_cache_path env) (some part) w
    | none ↦ put_file (broker_cache_path env) (some content) w
  ]

  -- saveCachedHost
  unfoldable pub save_cached_host : Bytes → World → World
  save_cached_host host w =
      if is_blank host then w else elim (p.create_error w (broker_cache_path env)) [
        | some e ↦ w
        | none ↦ write_cached (host ++ text "\n") (put_file (broker_cache_path env) (some []) w)
      ]

  module _ (system : Host) where
    -- Lines 256 to 260, on what scanLanForBroker gives.
    unfoldable pub found_host : Option Bytes × World → Option Bytes × World
    found_host (none, w) = (none, w)
    found_host (some host, w) = (some host, save_cached_host host w)

    -- Lines 252 to 260, on what probeTcpPort gives for the address in the file.
    unfoldable pub cached_by : ℕ → ℕ → Bytes → Bool × World → Option Bytes × World
    cached_by port size host (true, w) = (some (fit size host), w)
    cached_by port size host (false, w) = found_host (scan_lan_for_broker system env port size w)

    -- Lines 252 to 260.
    unfoldable pub resolve_auto : ℕ → ℕ → World → Option Bytes × World
    resolve_auto port size w = elim (load_cached_host 64 w) [
      | none ↦ found_host (scan_lan_for_broker system env port size w)
      | some host ↦ cached_by port size host (probe_tcp_port system host port 200 w)
    ]

    -- resolveHost, into a buffer of `size` bytes
    unfoldable pub resolve_host : ℕ → Daemon → Option Bytes × World
    resolve_host size d =
        if not d.auto_mode
        then (some (fit size d.fixed_host), d.world)
        else resolve_auto d.port size d.world

    module _ (backend : Backend) where
      -- Lines 270 to 273, behind otaMqttConnect.
      unfoldable pub subscribe_after : Bytes → Result (Unit {0}) × World → World
      subscribe_after topic (err message, w) = w
      subscribe_after topic (ok u, w) = (backend.subscribe_command topic w).1

      -- connectSession
      unfoldable pub connect_session : Bytes → Daemon → Daemon
      connect_session host d =
          put_world
            (λ w. subscribe_after d.command_topic (backend.connect host (pos d.port) d.client_id w))
            d

      -- Lines 289 to 296, on what resolveHost gives.
      unfoldable pub session_by : Option Bytes × World → Daemon → Daemon
      session_by (none, w) d = record d { world = w }
      session_by (some host, w) d =
          connect_session host
            (record d { world = if d.auto_mode then save_cached_host host w else w })

      -- Lines 284 to 287: the search of ten seconds ago or less is not repeated.
      unfoldable pub is_too_soon : ℕ → Daemon → Bool
      is_too_soon now d =
          d.auto_mode && (not (d.last_discover_at == 0) && ltb now (d.last_discover_at + 10))

      -- ensureSession
      unfoldable pub ensure_session : Daemon → Daemon
      ensure_session d =
          let now = system.time d.world in
          if backend.is_connected d.world
          then d
          else if is_too_soon now d
          then d
          else session_by (resolve_host 64 d) (record d { last_discover_at = now })
