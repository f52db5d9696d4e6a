-- ===== src/Agent/Commands.antt =====
-- The commands of ota-agent.cpp: --apply, --pull-latest, --mqtt-precheck and --mqtt-command. A command
-- gives its exit code and the world that it leaves; `none` is a run that does not end, which only
-- compareVersions can cause.
pub mod Checked
pub mod Applied
use alientek.Prelude.{
  ℕ, Bool, true, false, Option, none, some, List, [], ◌∷◌, ◌++◌, if◌then◌else◌, Bytes, fit, text,
  str_eq,
}
use mathlib.Core.Option
use alientek.World.{World, Platform, printed, Result, ok, err, put_log, set_errno}
use alientek.Defaults.{Environment, read_path_setting}
use alientek.Discover.Resolve.{resolve_latest_swu_url}
use alientek.State.{OtaState, blank, request_seen}
use alientek.State.Int.{pos}
use alientek.State.Store.{acquire_lock, release_lock}
use alientek.Mqtt.Utf8.{Parsed}
use alientek.Mqtt.Command.{OtaMqttCommand, parse_command_json}
use alientek.Mqtt.Payload.{build_status_payload}
use alientek.Exec.{read_current_version}
use alientek.Download.{Rounds}
use alientek.Agent.{
  load_state_for_apply, save_phase, execute_apply_pipeline, emit_ota_progress,
  execute_pull_latest_pipeline,
}
use alientek.Agent.Versions.{Order, less, equal, greater, compare_versions}

abbrev pub lock_path : Environment → Bytes
lock_path getenv =
    read_path_setting getenv (text "OTA_AGENT_LOCK_FILE") (text "/var/run/ota-agent.lock")

abbrev pub state_path : Environment → Bytes
state_path getenv =
    read_path_setting getenv (text "OTA_AGENT_STATE_FILE") (text "/var/lib/ota-agent/state.json")

-- The exit code for the outcome of a pipeline.
abbrev pub exit_code : Result (Unit {0}) → ℕ
exit_code (ok done) = 0
exit_code (err why) = 1

-- The state that is reported, and the world: lines 236 to 248 of emitMqttStatus.
unfoldable pub report_state : OtaState → World → OtaState × World
report_state state w = elim (build_status_payload 512 state) [
  | Parsed.ok payload ↦ (state, put_log (printed (payload ++ text "\n")) w)
  | Parsed.bad e ↦ (state, set_errno e w)
]

-- emitMqttStatus
unfoldable pub emit_mqtt_status : OtaState → Bytes → Bytes → Bytes → World → OtaState × World
unfolding report_state
emit_mqtt_status state phase result detail =
    report_state
      (record state { phase = fit 32 phase; result = fit 16 result; detail = fit 256 detail })

-- rejectMqttCommand. For a command that cannot be read, `detail` is the text that stands in the state
-- already.
unfoldable pub reject_mqtt_command : OtaState → Bytes → ℕ → World → ℕ × World
unfolding emit_mqtt_status
reject_mqtt_command state detail code w =
    (code, (emit_mqtt_status state (text "failed") (text "error") detail w).1)

-- compareVersions(...) <= 0
abbrev pub is_not_above : Order → Bool
is_not_above less = true
is_not_above equal = true
is_not_above greater = false

module _ (p : Platform) (getenv : Environment) where
  -- Line 315, on what is read of the version of the system: whether the version is not above it;
  -- where it cannot be read it does not count. `none` where the comparison does not end.
  unfoldable pub blocks_by : Bytes → Result Bytes × World → Option Bool × World
  blocks_by version (err message, w) = (some false, w)
  blocks_by version (ok current, w) =
      (Option.map is_not_above (compare_versions version current), w)

  -- Lines 314 and 315.
  unfoldable pub version_blocks : Bytes → World → Option Bool × World
  version_blocks version w = blocks_by version (read_current_version p getenv 32 w)

  -- Lines 314 to 319, with what is done for a version that may be installed.
  unfoldable pub on_version :
      OtaState → (World → Option (ℕ × World)) → Option Bool × World → Option (ℕ × World)
  on_version state go (none, w) = none
  on_version state go (some true, w) =
      some (reject_mqtt_command state (text "目标版本不高于当前版本，拒绝执行") 1 w)
  on_version state go (some false, w) = go w

  -- Lines 307 to 313, on the state of the previous update.
  unfoldable pub on_previous :
      OtaState → (World → Option (ℕ × World)) → Result OtaState × World → Option (ℕ × World)
  on_previous state go (err message, w) = some (reject_mqtt_command state message 1 w)
  on_previous state go (ok previous, w) =
      if request_seen previous state.request_id
      then some (reject_mqtt_command state (text "重复 requestId，拒绝执行") 1 w)
      else on_version state go (version_blocks state.version w)

  -- Lines 300 to 317, and 338 to 355: the checks of a command, and what is done with a good one.
  unfoldable pub check_command :
      Bytes → (OtaState → OtaMqttCommand → World → Option (ℕ × World)) → World → Option (ℕ × World)
  check_command json go w = elim (parse_command_json json) [
    | Parsed.bad e ↦ some (reject_mqtt_command blank (text "MQTT OTA 命令 JSON 无效") 2 (set_errno e w))
    | Parsed.ok (state, command) ↦
        on_previous state (go state command) (load_state_for_apply p (state_path getenv) w)
  ]

  -- executeMqttPrecheck
  unfoldable pub execute_mqtt_precheck : Bytes → World → Option (ℕ × World)
  execute_mqtt_precheck json = check_command json λ state command w.
      some (0, (emit_mqtt_status state (text "accepted") (text "running") (text "命令已解析") w).1)

  module _ (rounds : World → List Bytes → Rounds) where
    -- Lines 372 to 376.
    unfoldable pub finish_command : OtaState → Result (Unit {0}) × World → ℕ × World
    finish_command state (ok done, w) = (
      0,
      release_lock (lock_path getenv)
          (emit_mqtt_status state (text "completed") (text "success") (text "升级命令已执行") w).1,
    )
    finish_command state (err why, w) = (
      1,
      release_lock (lock_path getenv)
          (emit_mqtt_status state (text "failed") (text "error") why w).1,
    )

    -- Lines 364 to 376, with the lock held.
    unfoldable pub run_locked : Bytes → OtaMqttCommand → OtaState → World → ℕ × World
    run_locked download_path command state w =
        let r = save_phase p (state_path getenv) state (text "received") w in
        elim (r.0) [
          | err why ↦ reject_mqtt_command state why 1 (release_lock (lock_path getenv) r.1)
          | ok state' ↦ finish_command state' (
              execute_apply_pipeline p rounds command.url command.sha256 download_path
                (state_path getenv) state' r.1)
        ]

    -- Lines 360 to 376.
    unfoldable pub run_command_locked : Bytes → OtaMqttCommand → OtaState × World → ℕ × World
    run_command_locked download_path command (state, w) =
        let r = acquire_lock p (lock_path getenv) w in
        elim (r.0) [
          | err why ↦ reject_mqtt_command state (text "ota-agent busy") 1 r.1
          | ok done ↦ run_locked download_path command state r.1
        ]

    -- Lines 357 to 359.
    unfoldable pub emit_accepted : OtaState → World → OtaState × World
    emit_accepted state w =
        if str_eq (read_path_setting getenv (text "OTA_MQTT_SKIP_ACCEPTED") []) []
        then emit_mqtt_status state (text "accepted") (text "running") (text "命令已解析") w
        else (state, w)

    -- executeMqttCommandJson
    unfoldable pub execute_mqtt_command_json : Bytes → Bytes → World → Option (ℕ × World)
    execute_mqtt_command_json json download_path =
        check_command json
          λ state command w. some (run_command_locked download_path command (emit_accepted state w))

    -- Lines 214 to 226 of otaAgentRunApply, with the lock held.
    unfoldable pub apply_locked : Bytes → Bytes → Bytes → Bool → Result OtaState × World → ℕ × World
    apply_locked url sha256 swu_path reboot (err why, w) = (1, release_lock (lock_path getenv) w)
    apply_locked url sha256 swu_path reboot (ok state, w) =
        let r =
          execute_apply_pipeline p rounds url sha256 swu_path (state_path getenv)
            (record state { auto_reboot = pos (if reboot then 1 else 0) }) w in
        (exit_code r.0, release_lock (lock_path getenv) r.1)

    -- Lines 210 to 226, behind otaStateAcquireLock.
    unfoldable pub apply_acquired :
        Bytes → Bytes → Bytes → Bool → Result (Unit {0}) × World → ℕ × World
    apply_acquired url sha256 swu_path reboot (err why, w) = (1, w)
    apply_acquired url sha256 swu_path reboot (ok done, w) =
        apply_locked url sha256 swu_path reboot (load_state_for_apply p (state_path getenv) w)

    -- Lines 209 to 226.
    unfoldable pub apply_package : Bytes → Bytes → Bytes → Bool → World → ℕ × World
    apply_package url sha256 swu_path reboot w =
        apply_acquired url sha256 swu_path reboot (acquire_lock p (lock_path getenv) w)

    -- otaAgentRunApply, on the arguments behind --apply
    unfoldable pub run_apply : List Bytes → World → ℕ × World
    run_apply (url ∷ sha256 ∷ swu_path ∷ []) w = apply_package url sha256 swu_path false w
    run_apply (url ∷ sha256 ∷ swu_path ∷ flag ∷ []) w =
        if str_eq flag (text "--reboot") then apply_package url sha256 swu_path true w else (2, w)
    run_apply args w = (2, w)

    -- Lines 174 to 189 of otaAgentRunPullLatest, with the lock held.
    pull_locked : Bytes → Bytes → Bytes → Result OtaState × World → ℕ × World
    pull_locked url name swu_path (err why, w) = (1, release_lock (lock_path getenv) w)
    pull_locked url name swu_path (ok state, w) =
        let r =
          execute_pull_latest_pipeline p rounds url swu_path (state_path getenv)
            (record state {
              request_id = fit 64 (text "pull-latest");
              detail = fit 256 name;
              auto_reboot = pos 1;
            })
            w in
        (exit_code r.0, release_lock (lock_path getenv) r.1)

    -- Lines 163 to 189, for the package that has been found.
    pull_package : Bytes → Bytes → World → ℕ × World
    unfolding pull_locked
    pull_package url name w =
        let w1 = emit_ota_progress (pos 8) (text "resolved") w in
        elim (getenv (text "OTA_PULL_DRY_RUN")) [
          | some value ↦ (0, put_log (printed (url ++ text "\n")) w1)
          | none ↦
              let r = acquire_lock p (lock_path getenv) w1 in
              elim (r.0) [
                | err why ↦ (1, r.1)
                | ok done ↦
                    pull_locked url name
                      (read_path_setting getenv (text "OTA_DOWNLOAD_PATH")
                        (text "/var/tmp/ota-download.swu"))
                      (load_state_for_apply p (state_path getenv) r.1)
              ]
        ]

    -- Lines 156 to 189.
    pull_from : Bytes → World → ℕ × World
    unfolding pull_package
    pull_from base w =
        let r =
          resolve_latest_swu_url p 256 512 256 base
            (emit_ota_progress (pos 3) (text "resolving") (record w { high_water = 0 })) in
        elim (r.0) [ err why ↦ (1, r.1) | ok (url, name) ↦ pull_package url name r.1 ]

    -- otaAgentRunPullLatest, on the arguments behind --pull-latest
    unfoldable pub run_pull_latest : List Bytes → World → ℕ × World
    unfolding pull_from
    run_pull_latest [] w =
        pull_from
          (read_path_setting getenv (text "OTA_FIRMWARE_BASE") (text "http://192.168.5.13:8000")) w
    run_pull_latest (base ∷ []) w = pull_from base w
    run_pull_latest args w = (2, w)

  -- otaAgentRunMqttPrecheck, on the arguments behind --mqtt-precheck
  unfoldable pub run_mqtt_precheck : List Bytes → World → Option (ℕ × World)
  run_mqtt_precheck (json ∷ []) w = execute_mqtt_precheck json w
  run_mqtt_precheck args w = some (2, w)

  -- otaAgentRunMqttCommand, on the arguments behind --mqtt-command
  unfoldable pub run_mqtt_command :
      (World → List Bytes → Rounds) → List Bytes → World → Option (ℕ × World)
  run_mqtt_command rounds (json ∷ path ∷ []) w = execute_mqtt_command_json rounds json path w
  run_mqtt_command rounds args w = some (2, w)
