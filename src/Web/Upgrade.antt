-- ===== src/Web/Upgrade.antt =====
-- webserver-upgrade.c: the run of ota-apply and handleUpgrade.
use alientek.Prelude.{
  ℕ, ◌-◌, ◌+◌, Bool, true, false, not, ◌&&◌, ◌||◌, Option, none, some, List, [], ◌∷◌, ◌++◌, ◌==◌,
  ltb, leb, if◌then◌else◌, Bytes, length, drop, text, fit, c_str,
}
use alientek.World.{
  World, Platform, Errno, Exit, exited, killed, Spawned, failed, started, put_file, after_child,
  unlink,
}
use alientek.State.Int.{print_nat}
use alientek.Web.{Web, WebserverCfg, on_world, send_json}
use alientek.Web.Upload.{
  recv_body_to_file, extract_swu_from_mime, check_upgrade_auth, UpgradeHeaders, good, no_headers,
  bad_size, no_boundary, parse_upgrade_headers,
}

-- A byte of jsonEscape, `none` for one that is left out.
unfoldable pub escape_byte : ℕ → Bytes
escape_byte c =
    if c == b'"' || c == b'\\'
    then b'\\' ∷ c ∷ []
    else if c == b'\n'
    then text "\\n"
    else if c == b'\r'
    then text "\\r"
    else if c == b'\t'
    then text "\\t"
    else if ltb c 32
    then []
    else c ∷ []

-- The loop of jsonEscape, with `out` written: the buffer of `size` bytes, or -1.
unfoldable pub escape_loop : ℕ → Bytes → Bytes → Option Bytes
unfolding escape_byte
escape_loop size [] out = if leb size (length out + 1) then none else some (out ++ text "\"")
escape_loop size (c ∷ s) out =
    let e = escape_byte c in
    let rest = escape_loop size s (out ++ e) in
    if not (length e == 0) && leb size (length out + length e) then none else rest

-- jsonEscape, into a buffer of `size` bytes
unfoldable pub json_escape : ℕ → Bytes → Option Bytes
json_escape size s = if ltb size 3 then none else escape_loop size s (text "\"")

-- A text, or another one where it is empty.
unfoldable pub or_text : Bytes → Bytes → Bytes
or_text [] s = s
or_text (c ∷ t) s = c ∷ t

-- The JSON of a failure, lines 405 to 409 of handleUpgrade.
unfoldable pub failure_json : Bytes → Bytes
failure_json detail =
    let escaped : Bytes = elim (json_escape 4600 (or_text detail (text "ota-apply 失败"))) [
      | none ↦ text "\"升级失败\""
      | some s ↦ s
    ] in
    fit 5120 (text "{\"ok\":false,\"message\":" ++ (escaped ++ text "}"))

abbrev pub apply_args : WebserverCfg → List Bytes
apply_args cfg = cfg.apply_path ∷ cfg.swu_path ∷ []

-- The child of system.
abbrev pub reboot_args : WebserverCfg → List Bytes
reboot_args cfg = text "/bin/sh" ∷ text "-c" ∷ cfg.reboot_cmd ∷ []

-- WIFEXITED(status) && WEXITSTATUS(status) == 0
unfoldable pub is_applied : Exit → Bool
is_applied (exited n) = n == 0
is_applied (killed n) = false

-- Lines 234 to 242 of runBoardApplyUpdate.
unfoldable pub exit_text : ℕ → Exit → Bytes
exit_text size (exited n) = fit size (text "ota-apply 退出码 " ++ print_nat n)
exit_text size (killed n) = fit size (text "ota-apply 被信号 " ++ (print_nat n ++ text " 终止"))

module _ (p : Platform) (cfg : WebserverCfg) where
  -- loadLogTail: the last bytes of the log, as a C string
  unfoldable pub load_log_tail : ℕ → World → Bytes
  load_log_tail size w = elim (w.files cfg.log_path) [
    | none ↦ []
    | some log ↦ elim (p.open_error w cfg.log_path) [
      | some e ↦ []
      | none ↦ elim (p.read_error w cfg.log_path) [
        | some e ↦ []
        | none ↦ c_str (drop (length log - (size - 1)) log)
      ]
    ]
  ]

  -- Lines 230 to 244.
  unfoldable pub apply_ended : ℕ → Exit → World → (Bool × Bytes) × World
  apply_ended size exit w =
      let tail = load_log_tail size w in
      if is_applied exit
      then ((true, tail), w)
      else ((false, or_text tail (exit_text size exit)), w)

  -- Lines 226 to 244, on what waitpid gives.
  unfoldable pub apply_waited : ℕ → List Errno → Exit → World → (Bool × Bytes) × World
  apply_waited size (e ∷ errors) exit w =
      ((false, fit size (text "waitpid 失败: " ++ p.strerror e)), w)
  apply_waited size [] exit w = apply_ended size exit w

  -- Lines 205 to 244, on what fork gives; what the child prints goes to the log.
  unfoldable pub apply_spawned : ℕ → Spawned → World → (Bool × Bytes) × World
  apply_spawned size (failed e) w = ((false, fit size (text "fork 失败: " ++ p.strerror e)), w)
  apply_spawned size (started r) w =
      apply_waited size r.wait_errors r.exit
        (put_file cfg.log_path (some r.output) (after_child (apply_args cfg) r w))

  -- runBoardApplyUpdate on the package of the settings, with a buffer of `size` bytes: whether it
  -- returns 0, and the buffer
  unfoldable pub run_board_apply_update : ℕ → World → (Bool × Bytes) × World
  run_board_apply_update size w = elim (p.create_error w cfg.log_path) [
    | some e ↦ ((false, fit size (text "无法创建升级日志: " ++ p.strerror e)), w)
    | none ↦
        let v = put_file cfg.log_path (some []) w in
        apply_spawned size (p.spawn v (apply_args cfg)) v
  ]

  -- system(cfg->rebootCmd), whose result is only logged
  unfoldable pub reboot : World → World
  reboot w = elim (p.spawn w (reboot_args cfg)) [
    | failed e ↦ w
    | started r ↦ after_child (reboot_args cfg) r w
  ]

  abbrev pub set_busy : Bool → Web → Web
  set_busy b w = record w { busy = b }

  abbrev bad_request : Bytes → Web → Web
  bad_request json = send_json 400 (text "Bad Request") json

  -- Lines 402 to 420, on what runBoardApplyUpdate gives.
  unfoldable pub answer_applied : (Bool × Bytes) × World → Web → Web
  answer_applied ((false, detail), v) w =
      send_json 500 (text "Internal Server Error") (failure_json detail)
        (set_busy false (record w { world = v }))
  answer_applied ((true, detail), v) w = set_busy false (
      on_world reboot (
        send_json 200 (text "OK") (text "{\"ok\":true,\"message\":\"升级完成，设备即将重启\"}")
          (record w { world = v })))

  -- Lines 396 to 420, on the file that stat sees: it must have a byte.
  unfoldable pub apply_file : Option Bytes → Web → Web
  apply_file (some (c ∷ s)) w = answer_applied (run_board_apply_update 4096 w.world) w
  apply_file (some []) w =
      bad_request (text "{\"ok\":false,\"message\":\"升级包为空\"}") (set_busy false w)
  apply_file none w = bad_request (text "{\"ok\":false,\"message\":\"升级包为空\"}") (set_busy false w)

  unfoldable pub apply_uploaded : Web → Web
  apply_uploaded w = apply_file (w.world.files cfg.swu_path) w

  -- Lines 388 to 420, on what extractSwuFromMime gives.
  unfoldable pub extracted_by : Bool × World → Web → Web
  extracted_by (false, v) w =
      bad_request (text "{\"ok\":false,\"message\":\"未找到 swu 文件字段\"}")
        (set_busy false (record w { world = unlink p cfg.mime_path v }))
  extracted_by (true, v) w = apply_uploaded (record w { world = unlink p cfg.mime_path v })

  -- Lines 378 to 420, on what recvBodyToFile gives.
  unfoldable pub received_by : Bytes → Bool × Web → Web
  received_by boundary (false, w) =
      bad_request (text "{\"ok\":false,\"message\":\"接收上传失败\"}")
        (set_busy false (on_world (unlink p cfg.mime_path) w))
  received_by boundary (true, w) =
      let v = on_world (unlink p cfg.swu_path) w in
      extracted_by (extract_swu_from_mime p cfg.mime_path boundary cfg.swu_path v.world) v

  -- Lines 372 to 420, on what fopen gives.
  unfoldable pub upload_opened : Bytes → Bytes → ℕ → Option Errno → Web → Web
  upload_opened pref boundary size (some e) w =
      send_json 500 (text "Internal Server Error") (text "{\"ok\":false,\"message\":\"无法创建临时文件\"}")
        (set_busy false w)
  upload_opened pref boundary size none w = received_by boundary (
      recv_body_to_file p cfg.mime_path pref size
        (on_world (put_file cfg.mime_path (some [])) (set_busy true w)))

  -- Lines 370 to 420.
  unfoldable pub upload : Bytes → Bytes → ℕ → Web → Web
  upload pref boundary size w =
      upload_opened pref boundary size (p.create_error w.world cfg.mime_path) w

  -- Lines 353 to 420, on what parseUpgradeHeaders gives.
  unfoldable pub headers_by : Bytes → UpgradeHeaders → Web → Web
  headers_by pref no_headers w =
      bad_request (text "{\"ok\":false,\"message\":\"缺少 Content-Type/Length\"}") w
  headers_by pref bad_size w = bad_request (text "{\"ok\":false,\"message\":\"上传大小非法\"}") w
  headers_by pref no_boundary w =
      bad_request (text "{\"ok\":false,\"message\":\"需要 multipart/form-data\"}") w
  headers_by pref (good boundary size) w = upload pref boundary size w

  -- handleUpgrade, on the text of the headers and what has been read behind them
  unfoldable pub handle_upgrade : Bytes → Bytes → Web → Web
  handle_upgrade headers pref w =
      if not (check_upgrade_auth cfg.upgrade_token headers)
      then send_json 401 (text "Unauthorized") (text "{\"ok\":false,\"message\":\"未授权\"}") w
      else if w.busy
      then send_json 409 (text "Conflict") (text "{\"ok\":false,\"message\":\"升级进行中，请稍候\"}") w
      else headers_by pref (parse_upgrade_headers headers) w
