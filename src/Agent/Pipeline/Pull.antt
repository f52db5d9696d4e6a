-- ===== src/Agent/Pipeline/Pull.antt =====
-- executePullLatestPipeline of ota-agent.cpp, step by step. No package is checked in it.
use alientek.Prelude.{ℕ, ◌+◌, ◌*◌, ◌/◌, some, ◌≡◌, refl, ◌∙◌, ◌⊎◌, inl, List, Bytes, text}
use alientek.World.{World, Platform, Result, ok, Io, ◌>>=◌, ◌>>◌}
use alientek.State.{OtaState}
use alientek.State.Int.{ℤ, pos}
use alientek.Exec.{check_upgrade_allowed, prepare_target_slot, run_upgrade}
use alientek.Download.{Rounds, download_package_with_progress}
use alientek.Agent.{
  save_phase, emit, emit_ota_progress, on_pull_download_progress, execute_pull_latest_pipeline,
}
use alientek.Agent.Quiet.{applies, is_apply, check_upgrade_allowed-Quiet, prepare_target_slot-Quiet}
use alientek.Agent.Quiet.Downloads.{download-Quiet}
use alientek.Agent.Pipeline.{Stops, gate, save_phase-Quiet}

emit_ota_progress-Quiet :
    (percent : ℤ) (stage : Bytes) (w : World)
    → applies (emit_ota_progress percent stage w).log ≡ applies w.log
unfolding emit_ota_progress applies is_apply
emit_ota_progress-Quiet percent stage w = refl

on_pull-Quiet : (n : ℕ) (w : World) → applies (on_pull_download_progress n w).log ≡ applies w.log
unfolding on_pull_download_progress
on_pull-Quiet n w = emit_ota_progress-Quiet (pos (10 + n * 80 / 100)) (text "downloading") w

module _ (p : Platform) (rounds : World → List Bytes → Rounds) (url swu_path path : Bytes) where
  -- The end of the pipeline: ota-apply, and the progress at 100 if it succeeds.
  abbrev pub install : Io (Unit {0})
  install = run_upgrade p 256 swu_path >> emit (pos 100) (text "done")

  -- All steps before ota-apply have succeeded, one after the other from the world `w`.
  pub record Pulls (state : OtaState) (w : World) (got : Result (Unit {0}) × World) : Type 0 where
    pub allowed : World
    pub prepared : OtaState × World
    pub downloading : OtaState × World
    pub downloaded : World
    pub upgrading : OtaState × World
    pub is_allowed : check_upgrade_allowed p 256 w ≡ (ok tt, allowed)
    pub is_prepared : prepare_target_slot p 256 state allowed ≡ (ok prepared.0, prepared.1)
    pub is_downloading :
        save_phase p path prepared.0 (text "downloading") prepared.1
        ≡ (ok downloading.0, downloading.1)
    pub is_downloaded :
        download_package_with_progress p 256 rounds
          (some on_pull_download_progress)
          url
          swu_path
          (emit_ota_progress (pos 10) (text "downloading") downloading.1)
        ≡ (ok tt, downloaded)
    pub is_upgrading :
        save_phase p path downloading.0 (text "upgrading") downloaded
        ≡ (ok upgrading.0, upgrading.1)
    pub runs : got ≡ install (emit_ota_progress (pos 95) (text "upgrading") upgrading.1)
    pub started_none : applies upgrading.1.log ≡ applies w.log

  abbrev from_upgrading : OtaState → Io (Unit {0})
  from_upgrading s4 = emit (pos 95) (text "upgrading") >> install

  abbrev from_downloaded : OtaState → Io (Unit {0})
  from_downloaded s2 = save_phase p path s2 (text "upgrading") >>= from_upgrading

  abbrev from_download : OtaState → Io (Unit {0})
  from_download s2 =
      download_package_with_progress p 256 rounds (some on_pull_download_progress) url swu_path
      >> from_downloaded s2

  abbrev from_started : OtaState → Io (Unit {0})
  from_started s2 = emit (pos 10) (text "downloading") >> from_download s2

  abbrev from_downloading : OtaState → Io (Unit {0})
  from_downloading s1 = save_phase p path s1 (text "downloading") >>= from_started

  abbrev from_target : OtaState → Io (Unit {0})
  from_target state = prepare_target_slot p 256 state >>= from_downloading

  -- The pipeline of a pulled update either fails before ota-apply has been started, or has, in this
  -- order: found that an update is allowed, set the target slot, saved the phase downloading,
  -- downloaded the package, saved the phase upgrading, and only then come to otaRunUpgrade.
  pub execute_pull_latest_pipeline-Pulls :
      (state : OtaState) (w : World)
      → Pulls state w (execute_pull_latest_pipeline p rounds url swu_path path state w)
        ⊎ Stops w (execute_pull_latest_pipeline p rounds url swu_path path state w)
  unfolding execute_pull_latest_pipeline
  execute_pull_latest_pipeline-Pulls state w =
      let Good = Pulls state w in
      gate (check_upgrade_allowed p 256) (λ done. from_target state) w w Good
        (check_upgrade_allowed-Quiet p 256) refl
        λ u1 w1 e1 q1.
          gate (prepare_target_slot p 256 state) from_downloading w1 w Good
            (prepare_target_slot-Quiet p 256 state) q1
            λ s1 w2 e2 q2.
              gate (save_phase p path s1 (text "downloading")) from_started w2 w Good
                (save_phase-Quiet p path s1 (text "downloading")) q2
                λ s2 w3 e3 q3.
                  gate
                    (download_package_with_progress p 256 rounds (some on_pull_download_progress)
                      url swu_path)
                    (λ done. from_downloaded s2)
                    (emit_ota_progress (pos 10) (text "downloading") w3) w Good
                    (download-Quiet p 256 rounds (some on_pull_download_progress) url swu_path
                      on_pull-Quiet)
                    (emit_ota_progress-Quiet (pos 10) (text "downloading") w3 ∙ q3)
                    λ u5 w5 e5 q5.
                      gate (save_phase p path s2 (text "upgrading")) from_upgrading w5 w Good
                        (save_phase-Quiet p path s2 (text "upgrading")) q5
                        λ s4 w6 e6 q6. inl (record {
                          allowed = w1;
                          prepared = (s1, w2);
                          downloading = (s2, w3);
                          downloaded = w5;
                          upgrading = (s4, w6);
                          is_allowed = e1;
                          is_prepared = e2;
                          is_downloading = e3;
                          is_downloaded = e5;
                          is_upgrading = e6;
                          runs = refl;
                          started_none = q6;
                        })
