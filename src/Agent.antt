-- ===== src/Agent.antt =====
-- ota-agent.cpp: the commands of the agent. What is written to stderr is left out, and so are null
-- pointers. The buffers for messages have 256 bytes.
pub mod Versions
pub mod Commands
pub mod Startup
pub mod Pipeline
pub mod Quiet
use alientek.Prelude.{
  ℕ, zero, suc, ◌+◌, ◌-◌, ◌*◌, ◌/◌, max, Bool, true, false, not, ◌&&◌, ◌||◌, Option, none, some,
  List, [], ◌∷◌, ◌++◌, ◌==◌, ltb, leb, if◌then◌else◌, length, Bytes, fit, text, str_eq,
}
use alientek.World.{
  World, Platform, Event, printed, Result, ok, err, Io, ◌>>=◌, ◌>>◌, pure, fail, set_errno, put_log,
  is_enoent,
}
use alientek.Defaults.{Environment, read_path_setting}
use alientek.State.{OtaState, blank}
use alientek.State.Int.{ℤ, pos, negsuc, print_nat}
use alientek.State.Store.{save, load}
use alientek.State.Environment.{load_from_environment, save_to_environment}
use alientek.Exec.{check_upgrade_allowed, prepare_target_slot, run_upgrade}
use alientek.Download.{Rounds, download_package, download_package_with_progress}
use alientek.Download.Checksum.{verify_sha256}

module _ (p : Platform) where
  unfoldable pub apply_state : Bool × OtaState × World → Result OtaState × World
  unfolding is_enoent
  apply_state (true, state, w) = (ok state, w)
  apply_state (false, state, w) =
      if is_enoent w.errno
      then (ok state, w)
      else (err (fit 256 (text "读取 OTA 状态失败: " ++ p.strerror w.errno)), w)

  -- loadStateForApply. A state of which only the first variables could be read is kept.
  unfoldable pub load_state_for_apply : Bytes → Io OtaState
  load_state_for_apply path w =
      let r = load p path w in
      elim (r.0) [
        | ok state ↦ (ok state, r.1)
        | err message ↦
            if is_enoent r.1.errno
            then apply_state (load_from_environment p r.1)
            else apply_state (false, blank, r.1)
      ]

  -- Lines 46 to 52.
  unfoldable pub phase_saved : OtaState → Result (Unit {0}) × World → Result OtaState × World
  phase_saved state (ok done, w) = (ok state, w)
  phase_saved state (err message, w) =
      (err (fit 256 (text "保存 OTA 状态失败: " ++ p.strerror w.errno)), w)

  -- savePhase: the state with its phase. The phase is stored before the saves, so after a failure
  -- it is in the caller's state too, which then only serves to report another phase.
  unfoldable pub save_phase : Bytes → OtaState → Bytes → Io OtaState
  save_phase path state phase w =
      let state' = record state { phase = fit 32 phase } in
      phase_saved state' ((save p path state' >>= λ saved. save_to_environment p state') w)

  -- executeApplyPipeline; its flag autoReboot goes to otaRunUpgrade, which does not use it
  unfoldable pub execute_apply_pipeline :
      (World → List Bytes → Rounds) → Bytes → Bytes → Bytes → Bytes → OtaState → Io (Unit {0})
  execute_apply_pipeline rounds url sha256 swu_path path state = do
    check_upgrade_allowed p 256
    s1 ← prepare_target_slot p 256 state
    s2 ← save_phase path s1 (text "downloading")
    download_package p 256 rounds url swu_path
    s3 ← save_phase path s2 (text "verifying")
    verify_sha256 p 256 swu_path sha256
    s4 ← save_phase path s3 (text "upgrading")
    run_upgrade p 256 swu_path

-- Lines 84 to 87: a percentage held between 0 and 100.
abbrev clamp : ℤ → ℕ
clamp (pos n) = if ltb 100 n then 100 else n
clamp (negsuc n) = 0

abbrev pub progress_line : ℕ → Bytes → Bytes
progress_line percent stage =
    text "OTA_PROGRESS " ++ (print_nat percent ++ (text " " ++ (stage ++ text "\n")))

-- emitOtaProgress
unfoldable pub emit_ota_progress : ℤ → Bytes → World → World
unfolding print_nat
emit_ota_progress percent stage w =
    let n = max (clamp percent) w.high_water in
    put_log (printed (progress_line n stage)) (record w { high_water = n })

-- onPullDownloadProgress
unfoldable pub on_pull_download_progress : ℕ → World → World
unfolding emit_ota_progress
on_pull_download_progress curl_percent =
    emit_ota_progress (pos (10 + curl_percent * 80 / 100)) (text "downloading")

abbrev pub emit : ℤ → Bytes → Io (Unit {0})
emit percent stage w = (ok tt, emit_ota_progress percent stage w)

module _ (p : Platform) (rounds : World → List Bytes → Rounds) where
  -- executePullLatestPipeline
  unfoldable pub execute_pull_latest_pipeline : Bytes → Bytes → Bytes → OtaState → Io (Unit {0})
  execute_pull_latest_pipeline url swu_path path state = do
    check_upgrade_allowed p 256
    s1 ← prepare_target_slot p 256 state
    s2 ← save_phase p path s1 (text "downloading")
    emit (pos 10) (text "downloading")
    download_package_with_progress p 256 rounds (some on_pull_download_progress) url swu_path
    s3 ← save_phase p path s2 (text "upgrading")
    emit (pos 95) (text "upgrading")
    run_upgrade p 256 swu_path
    emit (pos 100) (text "done")
