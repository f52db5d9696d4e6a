-- ===== src/Agent/Quiet/Loads.antt =====
-- loadStateForApply and otaReadCurrentVersion, and the log of the world.
use alientek.Prelude.{
  ℕ, zero, suc, Bool, true, false, ◌∷◌, [], ◌≡◌, refl, ◌∙◌, inl, inr, arith, Bool-cases,
  Option-cases, if◌then◌else◌, Bytes, text, str_eq,
}
use alientek.World.{World, Platform, Ran, Result, ok, err, fail, is_enoent, set_errno, no_error}
use alientek.Defaults.{Environment, read_path_setting}
use alientek.State.{OtaState, blank}
use alientek.State.Store.{load, load_open}
use alientek.State.Environment.{
  read_env_value, read_started, env_value, print_args, optional_field, required, load_optional,
  load_from_environment,
}
use alientek.Exec.{open_to_read, read_version_from, copy_version_value, read_current_version}
use alientek.Agent.{apply_state, load_state_for_apply}
use alientek.Agent.Quiet.{applies, is_apply, Quiet, bind-Quiet, child-Quiet}

module _ (p : Platform) where
  load-Quiet : (path : Bytes) → Quiet (load p path)
  unfolding load load_open
  load-Quiet path w = ground arith

  env_value-Quiet : (value : Bytes) (done : Bool) → Quiet (env_value value done)
  unfolding env_value
  env_value-Quiet [] done w = refl
  env_value-Quiet (c ∷ value) true w = refl
  env_value-Quiet (c ∷ value) false w = refl

  read_started-Quiet : (size : ℕ) (r : Ran) → Quiet (read_started size r)
  unfolding read_started
  read_started-Quiet size r w = elim (Option-cases r.read_error) [
    | inr (e, q) ↦ rw (q, read_started)
    | inl q ↦ rw (q, read_started) (env_value-Quiet _ _ w)
  ]

  read_env_value-Quiet : (name : Bytes) (size : ℕ) → Quiet (read_env_value p name size)
  unfolding read_env_value is_apply str_eq
  read_env_value-Quiet name size w = elim (Option-cases (p.pipe_error w)) [
    | inr (e, q) ↦ rw (q, read_env_value)
    | inl q ↦
        rw (q, read_env_value)
          (child-Quiet (print_args name) (λ e. fail e []) (read_started size) refl (λ e v. refl)
            (read_started-Quiet size) (p.spawn w (print_args name)) w)
  ]

  -- A load in parts that does not start it.
  abbrev Loads : (World → Bool × OtaState × World) → Type 0
  Loads m = (w : World) → applies (m w).2.log ≡ applies w.log

  required-Loads :
      (name : Bytes) (size : ℕ) (store : Bytes → OtaState)
      (next : OtaState → World → Bool × OtaState × World)
      → ((state : OtaState) → Loads (next state))
      → Loads (required p name size store next)
  unfolding required
  required-Loads name size store next h w =
      by_result (read_env_value p name size w) ∙ read_env_value-Quiet name size w
    where
      by_result :
          (r : Result Bytes × World)
          → applies
              (elim (r.0) as (λ x. Bool × OtaState × World) [
                | ok value ↦ next (store value) r.1
                | err left ↦ (false, store left, r.1)
              ]).2.log
            ≡ applies r.1.log
      by_result (ok value, v) = h (store value) v
      by_result (err left, v) = refl

  optional_field-Quiet :
      (name : Bytes) (size : ℕ) (w : World)
      → applies (optional_field p name size w).1.log ≡ applies w.log
  unfolding optional_field
  optional_field-Quiet name size w =
      by_result (read_env_value p name size w) ∙ read_env_value-Quiet name size w
    where
      by_result :
          (r : Result Bytes × World)
          → applies
              (elim (r.0) as (λ x. Bytes × World) [
                | ok value ↦ (value, r.1)
                | err message ↦ ([], set_errno no_error r.1)
              ]).1.log
            ≡ applies r.1.log
      by_result (ok value, v) = refl
      by_result (err message, v) = refl

  load_optional-Loads : (state : OtaState) → Loads (load_optional p state)
  unfolding load_optional
  load_optional-Loads state w =
      optional_field-Quiet (text "ota_detail") 256 (optional_field p (text "ota_result") 16 w).1
      ∙ optional_field-Quiet (text "ota_result") 16 w

  load_from_environment-Loads : Loads (load_from_environment p)
  unfolding load_from_environment
  load_from_environment-Loads = required-Loads (text "ota_request_id") 64 _ _ λ s1.
      required-Loads (text "ota_version") 32 _ _ λ s2.
        required-Loads (text "ota_target_slot") 8 _ _
          λ s3. required-Loads (text "ota_phase") 32 _ _ λ s4. load_optional-Loads _

  apply_state-Quiet :
      (r : Bool × OtaState × World) → applies (apply_state p r).1.log ≡ applies r.2.log
  unfolding apply_state
  apply_state-Quiet (true, state, w) = refl
  apply_state-Quiet (false, state, w) = ground arith

  pub load_state_for_apply-Quiet : (path : Bytes) → Quiet (load_state_for_apply p path)
  unfolding load_state_for_apply
  load_state_for_apply-Quiet path w = by_result (load p path w) ∙ load-Quiet path w
    where
      by_result :
          (r : Result OtaState × World)
          → applies
              (elim (r.0) as (λ x. Result OtaState × World) [
                | ok state ↦ (ok state, r.1)
                | err message ↦
                    if is_enoent r.1.errno
                    then apply_state p (load_from_environment p r.1)
                    else apply_state p (false, blank, r.1)
              ]).1.log
            ≡ applies r.1.log
      by_result (ok state, v) = refl
      by_result (err message, v) = elim (Bool-cases (is_enoent v.errno)) [
        | inl t ↦
            rw t (apply_state-Quiet (load_from_environment p v) ∙ load_from_environment-Loads v)
        | inr t ↦ rw t (apply_state-Quiet (false, blank, v))
      ]

  open_to_read-Quiet : (path : Bytes) → Quiet (open_to_read p path)
  unfolding open_to_read
  open_to_read-Quiet path w = ground arith

  read_version_from-Quiet :
      (getenv : Environment) (size : ℕ) (path content : Bytes)
      → Quiet (read_version_from p getenv size path content)
  unfolding read_version_from copy_version_value
  read_version_from-Quiet getenv size path content w = ground arith

  pub read_current_version-Quiet :
      (getenv : Environment) (size : ℕ) → Quiet (read_current_version p getenv size)
  unfolding read_current_version
  read_current_version-Quiet getenv zero w = refl
  read_current_version-Quiet getenv (suc n) w =
      let path =
        read_path_setting getenv (text "OTA_AGENT_OS_RELEASE_FILE") (text "/etc/os-release") in
      bind-Quiet (open_to_read p path) (read_version_from p getenv (suc n) path)
        (open_to_read-Quiet path) (read_version_from-Quiet getenv (suc n) path) w
