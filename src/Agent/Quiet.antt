-- ===== src/Agent/Quiet.antt =====
-- The calls of the agent and the log of the world: which of them start ota-apply.
pub mod Downloads
pub mod Loads
use alientek.Prelude.{
  ℕ, zero, suc, ◌+◌, Bool, true, false, not, ◌&&◌, Option, none, some, List, [], ◌∷◌, ◌++◌, ◌≡◌,
  refl, sym, ap, ◌∙◌, ◌⊎◌, inl, inr, arith, Bool-cases, Option-cases, ltb, ◌==◌, if◌then◌else◌,
  Bytes, text, str_eq, before,
}
use alientek.World.{
  World, Platform, Errno, Event, ran, printed, slept, Ran, Exit, Spawned, failed, started, Result,
  ok, err, Io, ◌>>=◌, ◌>>◌, after_child, unlink, fail, pure, set_errno,
}
use alientek.World.Laws.{bind_ok, bind_err}
use alientek.State.{OtaState}
use alientek.State.Environment.{
  write_env_value, save_to_environment, set_ended, set_args, print_args,
}
use alientek.State.Int.{print_int}
use alientek.State.Store.{save}
use alientek.State.Saved.{save-OnlyFiles}
use alientek.Exec.{
  is_eintr, wait_for_command, child_ended, read_environment_value, read_value, read_failed,
  check_upgrade_allowed, judge_pending, set_target_slot, prepare_target_slot,
}
use alientek.Download.{
  Rounds, Round, Progress, fetch_content_length, wait_out, poll_loop, curl_ended, report_size,
  download_package_with_progress, head_args, curl_args,
}
use alientek.Download.Checksum.{
  sum_failed, calculate_sha256, read_sum, compare_sha256, verify_sha256, sum_args,
}

-- The event starts ota-apply.
unfoldable pub is_apply : Event → Bool
unfolding str_eq
is_apply (ran (program ∷ args)) = str_eq program (text "ota-apply")
is_apply _ = false

-- How often ota-apply has been started.
unfoldable pub applies : List Event → ℕ
unfolding is_apply
applies [] = 0
applies (event ∷ log) = if is_apply event then suc (applies log) else applies log

-- A call that does not start it.
abbrev pub Quiet : {A : Type 0} → Io A → Type 0
Quiet m = (w : World) → applies (m w).1.log ≡ applies w.log

pub bind-Quiet :
    {A B : Type 0} (m : Io A) (f : A → Io B) → Quiet m → ((a : A) → Quiet (f a)) → Quiet (m >>= f)
bind-Quiet {A} {B} m f hm hf w = by_result (m w) refl
  where
    by_result : (r : Result A × World) → m w ≡ r → applies ((m >>= f) w).1.log ≡ applies w.log
    by_result (ok a, w1) e =
        ap (λ (x : Result B × World). applies x.1.log) (bind_ok m f w e)
        ∙ hf a w1
        ∙ sym (ap (λ (x : Result A × World). applies x.1.log) e)
        ∙ hm w
    by_result (err why, w1) e =
        ap (λ (x : Result B × World). applies x.1.log) (bind_err m f w e)
        ∙ sym (ap (λ (x : Result A × World). applies x.1.log) e)
        ∙ hm w

-- A child that is not ota-apply, and what is done with it.
pub child-Quiet :
    {A : Type 0} (args : List Bytes) (refused : Errno → Io A) (k : Ran → Io A)
    → is_apply (ran args) ≡ false
    → ((e : Errno) → Quiet (refused e))
    → ((r : Ran) → Quiet (k r))
    → (s : Spawned)
    → Quiet {A = A}
        (λ w. elim s [ failed e ↦ refused e w | started r ↦ k r (after_child args r w) ])
unfolding applies after_child
child-Quiet args refused k h hf hk (failed e) w = hf e w
child-Quiet args refused k h hf hk (started r) w = hk r (after_child args r w) ∙ rw h

module _ (p : Platform) where
  set_ended-Quiet : (r : Ran) → Quiet (set_ended p r)
  unfolding set_ended
  set_ended-Quiet r w = ground arith

  write_env_value-Quiet : (name value : Bytes) → Quiet (write_env_value p name value)
  unfolding write_env_value applies is_apply
  write_env_value-Quiet name value w = ground arith

  pub save-Quiet : (path : Bytes) (state : OtaState) → Quiet (save p path state)
  save-Quiet path state w = ap applies (save-OnlyFiles p path state w).2

  pub save_to_environment-Quiet : (state : OtaState) → Quiet (save_to_environment p state)
  unfolding save_to_environment
  save_to_environment-Quiet state =
      let k6 : Io (Unit {0}) =
        write_env_value p (text "ota_auto_reboot") (print_int state.auto_reboot) in
      let k5 : Io (Unit {0}) = write_env_value p (text "ota_detail") state.detail >> k6 in
      let k4 : Io (Unit {0}) = write_env_value p (text "ota_result") state.result >> k5 in
      let k3 : Io (Unit {0}) = write_env_value p (text "ota_phase") state.phase >> k4 in
      let k2 : Io (Unit {0}) = write_env_value p (text "ota_target_slot") state.target_slot >> k3 in
      let k1 : Io (Unit {0}) = write_env_value p (text "ota_version") state.version >> k2 in
      then_Quiet (text "ota_request_id") state.request_id k1 (
        then_Quiet (text "ota_version") state.version k2 (
          then_Quiet (text "ota_target_slot") state.target_slot k3 (
            then_Quiet (text "ota_phase") state.phase k4 (
              then_Quiet (text "ota_result") state.result k5 (
                then_Quiet (text "ota_detail") state.detail k6 (
                  write_env_value-Quiet (text "ota_auto_reboot") (print_int state.auto_reboot)))))))
    where
      then_Quiet :
          (name value : Bytes) (k : Io (Unit {0}))
          → Quiet k
          → Quiet (write_env_value p name value >> k)
      then_Quiet name value k h =
          bind-Quiet (write_env_value p name value) (λ done. k) (write_env_value-Quiet name value)
            (λ done. h)

module _ (p : Platform) (error_size : ℕ) where
  wait_for_command-Quiet :
      (name : Bytes) (errors : List Errno) (end : Exit)
      → Quiet (wait_for_command p error_size name errors end)
  unfolding wait_for_command child_ended
  wait_for_command-Quiet name [] end w = ground arith
  wait_for_command-Quiet name (e ∷ errors) end w = elim (Bool-cases (is_eintr e)) [
    | inl t ↦ rw (t, wait_for_command) (wait_for_command-Quiet name errors end _)
    | inr t ↦ rw (t, wait_for_command)
  ]

  read_value-Quiet :
      (name : Bytes) (size : ℕ) (r : Ran) → Quiet (read_value p error_size name size r)
  unfolding read_value
  read_value-Quiet name size r w =
      ground (arith, wait_for_command-Quiet (text "fw_printenv") r.wait_errors r.exit w)

  read_environment_value-Quiet :
      (name : Bytes) (size : ℕ) → Quiet (read_environment_value p error_size name size)
  unfolding read_environment_value read_failed is_apply str_eq
  read_environment_value-Quiet name size w = elim (Bool-cases (ltb size 2)) [
    | inl t ↦ rw t
    | inr t ↦ elim (Option-cases (p.pipe_error w)) [
      | inr (e, q) ↦ rw (t, q, read_environment_value)
      | inl q ↦
          rw (t, q, read_environment_value)
            (child-Quiet (print_args name) (read_failed p error_size name)
              (read_value p error_size name size) refl (λ e v. refl) (read_value-Quiet name size)
              (p.spawn w (print_args name)) w)
    ]
  ]

  set_target_slot-Quiet :
      (state : OtaState) (value : Bytes) → Quiet (set_target_slot p error_size state value)
  unfolding set_target_slot
  set_target_slot-Quiet state value w = ground arith

  pub prepare_target_slot-Quiet :
      (state : OtaState) → Quiet (prepare_target_slot p error_size state)
  unfolding prepare_target_slot
  prepare_target_slot-Quiet state =
      bind-Quiet (read_environment_value p error_size (text "active_slot") 8)
        (set_target_slot p error_size state) (read_environment_value-Quiet _ _)
        (set_target_slot-Quiet state)

  judge_pending-Quiet : (value : Bytes) → Quiet (judge_pending p error_size value)
  unfolding judge_pending
  judge_pending-Quiet value w = ground arith

  pub check_upgrade_allowed-Quiet : Quiet (check_upgrade_allowed p error_size)
  unfolding check_upgrade_allowed
  check_upgrade_allowed-Quiet w =
      judged (read_environment_value p error_size (text "ota_pending") 16 w)
      ∙ read_environment_value-Quiet (text "ota_pending") 16 w
    where
      judged :
          (r : Result Bytes × World)
          → applies
              (elim (r.0) as (λ x. Result (Unit {0}) × World) [
                | err message ↦ (ok tt, r.1)
                | ok value ↦ judge_pending p error_size value r.1
              ]).1.log
            ≡ applies r.1.log
      judged (err message, v) = refl
      judged (ok value, v) = judge_pending-Quiet value v

  compare_sha256-Quiet :
      (expected actual : Bytes) → Quiet (compare_sha256 p error_size expected actual)
  unfolding compare_sha256
  compare_sha256-Quiet expected actual w = ground arith

  read_sum-Quiet : (r : Ran) → Quiet (read_sum p error_size r)
  unfolding read_sum
  read_sum-Quiet r w =
      ground (arith, wait_for_command-Quiet (text "sha256sum") r.wait_errors r.exit w)

  calculate_sha256-Quiet : (path : Bytes) → Quiet (calculate_sha256 p error_size path)
  unfolding calculate_sha256 is_apply str_eq
  calculate_sha256-Quiet path w = elim (Option-cases (p.pipe_error w)) [
    | inr (e, q) ↦ rw (q, calculate_sha256)
    | inl q ↦
        rw (q, calculate_sha256)
          (child-Quiet (sum_args path) (sum_failed p error_size) (read_sum p error_size) refl
            (λ e v. refl) read_sum-Quiet (p.spawn w (sum_args path)) w)
  ]

  pub verify_sha256-Quiet :
      (path expected : Bytes) → Quiet (verify_sha256 p error_size path expected)
  unfolding verify_sha256
  verify_sha256-Quiet [] expected w = refl
  verify_sha256-Quiet (c ∷ path) expected w = ground (
    arith,
    bind-Quiet (calculate_sha256 p error_size (c ∷ path)) (compare_sha256 p error_size expected)
        (calculate_sha256-Quiet (c ∷ path)) (compare_sha256-Quiet expected) w,
  )
