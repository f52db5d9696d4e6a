-- ===== src/Agent/Pipeline.antt =====
-- executeApplyPipeline of ota-agent.cpp, step by step.
pub mod Pull
use alientek.Prelude.{◌≡◌, refl, sym, ap, ◌∙◌, ◌⊎◌, inl, inr, none, List, Bytes, text, fit}
use alientek.World.{World, Platform, Result, ok, err, Io, ◌>>=◌, ◌>>◌}
use alientek.World.Laws.{bind_ok, bind_err}
use alientek.State.{OtaState}
use alientek.State.Store.{save}
use alientek.State.Environment.{save_to_environment}
use alientek.Exec.{check_upgrade_allowed, prepare_target_slot, run_upgrade}
use alientek.Download.{Rounds, download_package}
use alientek.Download.Checksum.{verify_sha256, Verified, verify_sha256-Verified}
use alientek.Agent.{phase_saved, save_phase, execute_apply_pipeline}
use alientek.Agent.Quiet.{
  applies, Quiet, bind-Quiet, save-Quiet, save_to_environment-Quiet, check_upgrade_allowed-Quiet,
  prepare_target_slot-Quiet, verify_sha256-Quiet,
}
use alientek.Agent.Quiet.Downloads.{download-Quiet}

-- A run from `v` that has failed and has not started ota-apply.
abbrev pub Stops : {A : Type 0} → World → Result A × World → Type 0
Stops v got = (applies got.1.log ≡ applies v.log) × ((why : Bytes) × (got.0 ≡ err why))

-- A step that does not start ota-apply, and what follows it.
pub gate :
    {A B : Type 0} (m : Io A) (f : A → Io B) (w v : World) (Good : Result B × World → Type 0)
    → Quiet m
    → applies w.log ≡ applies v.log
    → ((a : A) (w1 : World)
        → m w ≡ (ok a, w1)
        → applies w1.log ≡ applies v.log
        → Good (f a w1) ⊎ Stops v (f a w1))
    → Good ((m >>= f) w) ⊎ Stops v ((m >>= f) w)
gate {A} {B} m f w v Good hm e k = by_result (m w) refl
  where
    by_result : (r : Result A × World) → m w ≡ r → Good ((m >>= f) w) ⊎ Stops v ((m >>= f) w)
    by_result (ok a, w1) q =
        let log : applies w1.log ≡ applies v.log =
          sym (ap (λ (x : Result A × World). applies x.1.log) q) ∙ hm w ∙ e in
        rw (bind_ok m f w q) (k a w1 q log)
    by_result (err why, w1) q =
        let log : applies w1.log ≡ applies v.log =
          sym (ap (λ (x : Result A × World). applies x.1.log) q) ∙ hm w ∙ e in
        rw (bind_err m f w q) (inr (log, (why, refl)))

module _ (p : Platform) where
  phase_saved-Quiet :
      (state : OtaState) (r : Result (Unit {0}) × World)
      → applies (phase_saved p state r).1.log ≡ applies r.1.log
  unfolding phase_saved
  phase_saved-Quiet state (ok done, w) = refl
  phase_saved-Quiet state (err message, w) = refl

  pub save_phase-Quiet :
      (path : Bytes) (state : OtaState) (phase : Bytes) → Quiet (save_phase p path state phase)
  unfolding save_phase
  save_phase-Quiet path state phase w =
      let s : OtaState = record state { phase = fit 32 phase } in
      phase_saved-Quiet s ((save p path s >>= λ saved. save_to_environment p s) w)
      ∙ bind-Quiet (save p path s) (λ saved. save_to_environment p s) (save-Quiet p path s)
          (λ saved. save_to_environment-Quiet p s) w

  module _ (rounds : World → List Bytes → Rounds) (url sha256 swu_path path : Bytes) where
    download_package-Quiet : (from to : Bytes) → Quiet (download_package p 256 rounds from to)
    unfolding download_package
    download_package-Quiet from to = download-Quiet p 256 rounds none from to tt

    -- All steps before ota-apply have succeeded, one after the other from the world `w`, and the
    -- outcome is that of ota-apply in the world behind them.
    pub record Reaches (state : OtaState) (w : World) (got : Result (Unit {0}) × World)
        : Type 0 where
      pub allowed : World
      pub prepared : OtaState × World
      pub downloading : OtaState × World
      pub downloaded : World
      pub verifying : OtaState × World
      pub verified : World
      pub upgrading : OtaState × World
      pub is_allowed : check_upgrade_allowed p 256 w ≡ (ok tt, allowed)
      pub is_prepared : prepare_target_slot p 256 state allowed ≡ (ok prepared.0, prepared.1)
      pub is_downloading :
          save_phase p path prepared.0 (text "downloading") prepared.1
          ≡ (ok downloading.0, downloading.1)
      pub is_downloaded :
          download_package p 256 rounds url swu_path downloading.1 ≡ (ok tt, downloaded)
      pub is_verifying :
          save_phase p path downloading.0 (text "verifying") downloaded
          ≡ (ok verifying.0, verifying.1)
      pub is_verified : verify_sha256 p 256 swu_path sha256 verifying.1 ≡ (ok tt, verified)
      pub is_upgrading :
          save_phase p path verifying.0 (text "upgrading") verified ≡ (ok upgrading.0, upgrading.1)
      pub has_sum : Verified p 256 swu_path sha256 verifying.1
      pub runs : got ≡ run_upgrade p 256 swu_path upgrading.1
      pub started_none : applies upgrading.1.log ≡ applies w.log

    -- The steps from each on.
    abbrev from_upgrading : OtaState → Io (Unit {0})
    from_upgrading s3 = save_phase p path s3 (text "upgrading") >>= λ s4. run_upgrade p 256 swu_path

    abbrev from_verified : OtaState → Io (Unit {0})
    from_verified s3 = verify_sha256 p 256 swu_path sha256 >> from_upgrading s3

    abbrev from_verifying : OtaState → Io (Unit {0})
    from_verifying s2 = save_phase p path s2 (text "verifying") >>= from_verified

    abbrev from_download : OtaState → Io (Unit {0})
    from_download s2 = download_package p 256 rounds url swu_path >> from_verifying s2

    abbrev from_downloading : OtaState → Io (Unit {0})
    from_downloading s1 = save_phase p path s1 (text "downloading") >>= from_download

    abbrev from_target : OtaState → Io (Unit {0})
    from_target state = prepare_target_slot p 256 state >>= from_downloading

    -- The pipeline of an update either fails before ota-apply has been started, or has, in this
    -- order: found that an update is allowed, set the target slot, saved the phase downloading,
    -- downloaded the package, saved the phase verifying, checked the package against the SHA256,
    -- saved the phase upgrading, and only then come to otaRunUpgrade, whose outcome is its own.
    pub execute_apply_pipeline-Reaches :
        (state : OtaState) (w : World)
        → let got = execute_apply_pipeline p rounds url sha256 swu_path path state w in
          Reaches state w got ⊎ Stops w got
    unfolding execute_apply_pipeline
    execute_apply_pipeline-Reaches state w =
        let Good = Reaches state w in
        gate (check_upgrade_allowed p 256) (λ done. from_target state) w w Good
          (check_upgrade_allowed-Quiet p 256) refl
          λ u1 w1 e1 q1.
            gate (prepare_target_slot p 256 state) from_downloading w1 w Good
              (prepare_target_slot-Quiet p 256 state) q1
              λ s1 w2 e2 q2.
                gate (save_phase p path s1 (text "downloading")) from_download w2 w Good
                  (save_phase-Quiet path s1 (text "downloading")) q2
                  λ s2 w3 e3 q3.
                    gate (download_package p 256 rounds url swu_path) (λ done. from_verifying s2) w3
                      w Good (download_package-Quiet url swu_path) q3
                      λ u4 w4 e4 q4.
                        gate (save_phase p path s2 (text "verifying")) from_verified w4 w Good
                          (save_phase-Quiet path s2 (text "verifying")) q4
                          λ s3 w5 e5 q5.
                            gate (verify_sha256 p 256 swu_path sha256) (λ done. from_upgrading s3)
                              w5 w Good (verify_sha256-Quiet p 256 swu_path sha256) q5
                              λ u6 w6 e6 q6.
                                gate (save_phase p path s3 (text "upgrading"))
                                  (λ s4. run_upgrade p 256 swu_path) w6 w Good
                                  (save_phase-Quiet path s3 (text "upgrading")) q6
                                  λ s4 w7 e7 q7. inl (record {
                                    allowed = w1;
                                    prepared = (s1, w2);
                                    downloading = (s2, w3);
                                    downloaded = w4;
                                    verifying = (s3, w5);
                                    verified = w6;
                                    upgrading = (s4, w7);
                                    is_allowed = e1;
                                    is_prepared = e2;
                                    is_downloading = e3;
                                    is_downloaded = e4;
                                    is_verifying = e5;
                                    is_verified = e6;
                                    is_upgrading = e7;
                                    has_sum =
                                        verify_sha256-Verified p 256 swu_path sha256 w5
                                          (ap (λ (x : Result (Unit {0}) × World). x.0) e6);
                                    runs = refl;
                                    started_none = q7;
                                  })
