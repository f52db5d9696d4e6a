-- ===== src/Exec.antt =====
-- ota-exec.cpp: the programs that the OTA agent runs (fw_printenv, ota-apply), the slot that an
-- update goes to, and the version of the running system. A buffer for a message has `error_size`
-- bytes; a null pointer is an empty text or cannot be passed.
pub mod Cmdline
pub mod Recovery
pub mod Checks
use alientek.Prelude.{
  ℕ, zero, suc, ◌-◌, Bool, true, false, ◌&&◌, ◌||◌, not, Option, none, some, List, [], ◌∷◌, ◌++◌,
  ◌==◌, ltb, leb, if◌then◌else◌, length, take, drop, Bytes, fit, text, c_str, before, str_eq,
  starts_with, read_lines,
}
use alientek.World.{
  World, Platform, Errno, eintr, eio, einval, enoent, ebusy, erange, enodata, Ran, Exit, exited,
  killed, Spawned, failed, started, Result, ok, err, Io, ◌>>=◌, ◌>>◌, pure, fail, set_errno,
  after_child,
}
use alientek.Defaults.{Environment, read_path_setting}
use alientek.State.{OtaState}
use alientek.State.Int.{ℤ, pos, negsuc, print_int}
use alientek.State.Environment.{is_line_end, print_args}

unfoldable pub is_eintr : Errno → Bool
is_eintr eintr = true
is_eintr _ = false

-- What the %d of waitForCommand prints.
abbrev pub exit_status : Exit → ℤ
exit_status (exited status) = pos status
exit_status (killed signal) = negsuc 0

abbrev pub succeeded : Exit → Bool
succeeded (exited status) = status == 0
succeeded (killed signal) = false

abbrev pub apply_args : Bytes → List Bytes
apply_args path = text "ota-apply" ∷ path ∷ []

module _ (p : Platform) (error_size : ℕ) where
  -- setError
  complain : Bytes → Bytes
  complain = fit error_size

  -- Lines 38 to 43.
  unfoldable pub child_ended : Bytes → Exit → Io (Unit {0})
  unfolding complain print_int
  child_ended name end w =
      if succeeded end
      then (ok tt, w)
      else (err (complain (name ++ (text " 执行失败，退出状态=" ++ print_int (exit_status end)))), w)

  -- waitForCommand, with the errors of waitpid before it succeeds
  unfoldable pub wait_for_command : Bytes → List Errno → Exit → Io (Unit {0})
  unfolding child_ended complain is_eintr
  wait_for_command name [] end w = child_ended name end w
  wait_for_command name (e ∷ errors) end w =
      let again = wait_for_command name errors end (set_errno e w) in
      if is_eintr e
      then again
      else fail e (complain (text "等待 " ++ (name ++ (text " 失败: " ++ p.strerror e)))) w

  -- runCommand; a program that cannot be executed exits with 127
  unfoldable pub run_command : List Bytes → Bytes → Io (Unit {0})
  unfolding wait_for_command after_child complain
  run_command args name w = elim (p.spawn w args) [
    | failed e ↦ fail e (complain (text "启动 " ++ (name ++ (text " 失败: " ++ p.strerror e)))) w
    | started r ↦ wait_for_command name r.wait_errors r.exit (after_child args r w)
  ]

  unfoldable pub read_failed : Bytes → Errno → Io Bytes
  unfolding complain
  read_failed name e = fail e (complain (text "读取 " ++ (name ++ (text " 失败: " ++ p.strerror e))))

  -- Lines 90 to 98. The value is used only after the child has ended well.
  unfoldable pub read_value : Bytes → ℕ → Ran → Io Bytes
  unfolding read_failed wait_for_command c_str
  read_value name size r w = elim (r.read_error) [
    | some e ↦ read_failed name e w
    | none ↦
        (do
          wait_for_command (text "fw_printenv") r.wait_errors r.exit
          pure (c_str (take (size - 1) r.output)))
          w
  ]

  -- readEnvironmentValue
  unfoldable pub read_environment_value : Bytes → ℕ → Io Bytes
  unfolding read_value read_failed complain after_child
  read_environment_value name size w =
      if ltb size 2
      then fail einval (complain (text "读取 U-Boot 环境变量参数无效")) w
      else elim (p.pipe_error w) [
        | some e ↦ fail e (complain (text "创建 fw_printenv 管道失败: " ++ p.strerror e)) w
        | none ↦ elim (p.spawn w (print_args name)) [
          | failed e ↦ read_failed name e w
          | started r ↦ read_value name size r (after_child (print_args name) r w)
        ]
      ]

  -- Lines 122 to 131, on the value of active_slot.
  unfoldable pub set_target_slot : OtaState → Bytes → Io OtaState
  unfolding before str_eq complain
  set_target_slot state value w =
      let active = before is_line_end value in
      if not (str_eq active (text "A")) && not (str_eq active (text "B"))
      then fail einval (complain (text "active_slot 值无效: " ++ active)) w
      else (
        ok (record state {
          target_slot = fit 8 (if str_eq active (text "A") then text "B" else text "A");
        }),
        w,
      )

  -- otaPrepareTargetSlot: the state with its target slot, or a failure, which leaves it alone
  unfoldable pub prepare_target_slot : OtaState → Io OtaState
  prepare_target_slot state =
      read_environment_value (text "active_slot") 8 >>= set_target_slot state

  -- Lines 143 to 157, on the value of ota_pending.
  unfoldable pub judge_pending : Bytes → Io (Unit {0})
  unfolding before str_eq complain
  judge_pending pending w =
      let value = before is_line_end pending in
      if str_eq value (text "1")
      then fail ebusy (complain (text "ota_pending=1，上次升级尚未提交，拒绝再次升级")) w
      else if not (str_eq value (text "0")) && not (str_eq value [])
      then fail einval (complain (text "ota_pending 值无效: " ++ value)) w
      else (ok tt, w)

  -- otaCheckUpgradeAllowed; a variable that cannot be read counts as 0
  unfoldable pub check_upgrade_allowed : Io (Unit {0})
  check_upgrade_allowed w =
      let r = read_environment_value (text "ota_pending") 16 w in
      elim (r.0) [ err message ↦ (ok tt, r.1) | ok value ↦ judge_pending value r.1 ]

  -- otaRunUpgrade; its flag autoReboot is not used
  unfoldable pub run_upgrade : Bytes → Io (Unit {0})
  unfolding complain
  run_upgrade [] w = fail einval (complain (text "升级包路径不能为空")) w
  run_upgrade (c ∷ path) w =
      (do check_upgrade_allowed; run_command (apply_args (c ∷ path)) (text "ota-apply")) w

-- Lines 183 to 186: a value without the quotes around it.
without_quotes : Bytes → Bytes
without_quotes [] = []
without_quotes (c ∷ value) =
    let n = length value in
    if leb 1 n && (c == b'"' && str_eq (drop (n - 1) value) (b'"' ∷ []))
    then take (n - 1) value
    else c ∷ value

-- copyVersionValue
unfoldable pub copy_version_value : ℕ → Bytes → Io Bytes
unfolding without_quotes before
copy_version_value size line w =
    let value = without_quotes (before is_line_end (drop 11 line)) in
    if length value == 0
    then fail einval [] w
    else if leb size (length value)
    then fail erange [] w
    else (ok value, w)

-- Lines 213 to 220: the first line that sets VERSION_ID.
unfoldable pub version_line : List Bytes → Option Bytes
unfolding starts_with
version_line [] = none
version_line (line ∷ lines) =
    let rest = version_line lines in
    if starts_with line (text "VERSION_ID=") then some line else rest

module _ (p : Platform) where
  -- fopen for reading
  unfoldable pub open_to_read : Bytes → Io Bytes
  open_to_read path w = elim (w.files path) [
    | none ↦ fail enoent [] w
    | some content ↦ elim (p.open_error w path) [ some e ↦ fail e [] w | none ↦ (ok content, w) ]
  ]

module _ (p : Platform) (getenv : Environment) where
  -- Lines 213 to 223. A file that cannot be read gives no line.
  unfoldable pub read_version_from : ℕ → Bytes → Bytes → Io Bytes
  unfolding version_line copy_version_value read_lines
  read_version_from size path content w = elim (p.read_error w path) [
    | some e ↦ fail eio [] w
    | none ↦ elim (version_line (read_lines (length content) 256 content)) [
      | none ↦ fail einval [] w
      | some line ↦ copy_version_value size line w
    ]
  ]

  -- otaReadCurrentVersion
  unfoldable pub read_current_version : ℕ → Io Bytes
  unfolding read_path_setting
  read_current_version zero w = fail einval [] w
  read_current_version (suc n) w =
      let path =
        read_path_setting getenv (text "OTA_AGENT_OS_RELEASE_FILE") (text "/etc/os-release") in
      (open_to_read p path >>= read_version_from (suc n) path) w
