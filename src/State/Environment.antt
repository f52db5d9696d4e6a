-- ===== src/State/Environment.antt =====
-- The copy of an OtaState in the U-Boot environment, through the programs fw_printenv and fw_setenv.
use alientek.Prelude.{
  ℕ, ◌-◌, Bool, true, false, ◌||◌, none, some, List, [], ◌∷◌, ◌==◌, if◌then◌else◌, take, Bytes,
  text, c_str, strip_end,
}
use alientek.World.{
  World, Platform, Errno, no_error, enoent, eio, Ran, exited, killed, failed, started, ok, err, Io,
  ◌>>◌, fail, set_errno, after_child,
}
use alientek.State.{OtaState, blank}
use alientek.State.Int.{print_int}

-- A byte that the loop of readEnvValue cuts off the end.
abbrev pub is_line_end : ℕ → Bool
is_line_end c = c == b'\n' || c == b'\r'

-- waitpid without a retry
waits : List Errno → Bool
waits [] = true
waits (e ∷ es) = false

-- Behind the loop: the value stands in the buffer, and a failure carries what it leaves there.
unfoldable pub env_value : Bytes → Bool → Io Bytes
env_value [] done w = fail enoent [] w
env_value (c ∷ value) true w = (ok (c ∷ value), w)
env_value (c ∷ value) false w = fail enoent (c ∷ value) w

-- The lines behind fork of readEnvValue. The status of the child is not looked at.
unfoldable pub read_started : ℕ → Ran → Io Bytes
unfolding env_value waits
read_started size r w = elim (r.read_error) [
  | some e ↦ fail e [] w
  | none ↦
      env_value (c_str (strip_end is_line_end (take (size - 1) r.output))) (waits r.wait_errors) w
]

abbrev pub print_args : Bytes → List Bytes
print_args name = text "fw_printenv" ∷ text "-n" ∷ name ∷ []

abbrev pub set_args : Bytes → Bytes → List Bytes
set_args name value = text "fw_setenv" ∷ name ∷ value ∷ []

module _ (p : Platform) where
  -- readEnvValue; every call gives a name and room for two bytes at least
  unfoldable pub read_env_value : Bytes → ℕ → Io Bytes
  unfolding read_started after_child
  read_env_value name size w = elim (p.pipe_error w) [
    | some e ↦ fail e [] w
    | none ↦ elim (p.spawn w (print_args name)) [
      | failed e ↦ fail e [] w
      | started r ↦ read_started size r (after_child (print_args name) r w)
    ]
  ]

  unfoldable pub set_ended : Ran → Io (Unit {0})
  set_ended r w = elim (r.wait_errors) [
    | e ∷ es ↦ fail e [] w
    | [] ↦ elim (r.exit) [
      | exited status ↦ if status == 0 then (ok tt, w) else fail eio [] w
      | killed signal ↦ fail eio [] w
    ]
  ]

  -- writeEnvValue
  unfoldable pub write_env_value : Bytes → Bytes → Io (Unit {0})
  unfolding set_ended after_child
  write_env_value name value w = elim (p.spawn w (set_args name value)) [
    | failed e ↦ fail e [] w
    | started r ↦ set_ended r (after_child (set_args name value) r w)
  ]

  -- Lines 357 to 364: a field that may be missing.
  unfoldable pub optional_field : Bytes → ℕ → World → Bytes × World
  optional_field name size w =
      let r = read_env_value name size w in
      elim (r.0) [ ok value ↦ (value, r.1) | err message ↦ ([], set_errno no_error r.1) ]

  -- Lines 357 to 365.
  unfoldable pub load_optional : OtaState → World → Bool × OtaState × World
  load_optional state w =
      let (result, w1) = optional_field (text "ota_result") 16 w in
      let (detail, w2) = optional_field (text "ota_detail") 256 w1 in
      (true, record state { result = result; detail = detail }, w2)

  -- A required field: what is read is stored in it, and a failure ends the load with what it has left
  -- in the field.
  unfoldable pub required :
      Bytes
      → ℕ
      → (Bytes → OtaState)
      → (OtaState → World → Bool × OtaState × World)
      → World
      → Bool × OtaState × World
  required name size store next w =
      let r = read_env_value name size w in
      elim (r.0) [ ok value ↦ next (store value) r.1 | err left ↦ (false, store left, r.1) ]

  -- otaStateLoadFromEnvironment: whether it returns 0, and the state as it is left. `auto_reboot`
  -- is not among the fields that are read.
  unfoldable pub load_from_environment : World → Bool × OtaState × World
  load_from_environment =
      required (text "ota_request_id") 64 (λ value. record blank { request_id = value })
        (λ s1.
          required (text "ota_version") 32 (λ value. record s1 { version = value })
            (λ s2.
              required (text "ota_target_slot") 8 (λ value. record s2 { target_slot = value })
                (λ s3.
                  required (text "ota_phase") 32 (λ value. record s3 { phase = value })
                    load_optional)))

  -- otaStateSaveToEnvironment
  unfoldable pub save_to_environment : OtaState → Io (Unit {0})
  save_to_environment state = do
    write_env_value (text "ota_request_id") state.request_id
    write_env_value (text "ota_version") state.version
    write_env_value (text "ota_target_slot") state.target_slot
    write_env_value (text "ota_phase") state.phase
    write_env_value (text "ota_result") state.result
    write_env_value (text "ota_detail") state.detail
    write_env_value (text "ota_auto_reboot") (print_int state.auto_reboot)
