-- ===== src/Panel/Update.antt =====
-- The handlers of dashboard.cpp for a pulled update, lines 642 to 685 and 975 to 1055.
use alientek.Prelude.{
  ℕ, zero, suc, Bool, true, false, not, ◌&&◌, ◌||◌, Option, none, some, List, [], ◌∷◌, ◌++◌, ◌==◌,
  if◌then◌else◌, max, Bytes, length, text, str_eq, starts_with,
}
use alientek.State.Int.{ℤ, pos, negsuc}
use alientek.Panel.{Qt, Panel, QString, bounded_percent, set_value, is_empty, refresh_ota_labels}

-- The part of `s` in front of the first line feed, and the part behind it: indexOf, left and remove.
unfoldable pub take_line : QString → Option (QString × QString)
take_line [] = none
take_line (c ∷ s) =
    let rest = take_line s in
    if c == b'\n' then some ([], s) else elim rest [ none ↦ none | some r ↦ some (c ∷ r.0, r.1) ]

module _ (qt : Qt) where
  -- Lines 655 to 664 of applyOtaProgressLine.
  unfoldable pub stage_text : QString → QString
  unfolding str_eq
  stage_text stage =
      if str_eq stage (text "resolving") || str_eq stage (text "resolved")
      then qt.from_utf8 (text "解析目录")
      else if str_eq stage (text "downloading")
      then qt.from_utf8 (text "下载固件")
      else if str_eq stage (text "upgrading")
      then qt.from_utf8 (text "写入并切槽")
      else if str_eq stage (text "done")
      then qt.from_utf8 (text "完成，即将重启")
      else stage

  -- Lines 665 to 684, on the percentage and the stage.
  unfoldable pub show_progress : ℤ → QString → Panel → Panel
  show_progress percent stage d =
      let n = max (bounded_percent percent) d.high_water in
      let zh = stage_text stage in
      refresh_ota_labels qt (record (set_value (pos n) d) {
        high_water = n;
        bar_label = qt.arg (qt.arg_int (qt.from_utf8 (text "PROGRESS %1% · %2")) (pos n)) zh;
        pull_msg = qt.arg (qt.arg_int (qt.from_utf8 (text "UPGRADING… %1% (%2)")) (pos n)) zh;
      })

  unfoldable pub first_of : List QString → QString
  first_of [] = []
  first_of (s ∷ rest) = s

  -- Lines 648 to 684, on the parts.
  unfoldable pub apply_parts : List QString → Panel → Panel
  apply_parts [] d = d
  apply_parts (name ∷ []) d = d
  apply_parts (name ∷ percent ∷ rest) d = elim (qt.to_int percent) [
    | none ↦ d
    | some n ↦ show_progress n (first_of rest) d
  ]

  -- applyOtaProgressLine
  unfoldable pub apply_ota_progress_line : QString → Panel → Panel
  unfolding starts_with
  apply_ota_progress_line line d =
      let s = qt.trimmed line in
      if not (starts_with s (text "OTA_PROGRESS")) then d else apply_parts (qt.words s) d

  -- The loop of onOtaPullStdout on fuel: every round takes a line off.
  unfoldable pub stdout_loop : ℕ → Panel → Panel
  stdout_loop zero d = d
  stdout_loop (suc fuel) d = elim (take_line d.stdout_buf) [
    | none ↦ d
    | some r ↦ stdout_loop fuel (apply_ota_progress_line r.0 (record d { stdout_buf = r.1 }))
  ]

  -- onOtaPullStdout, on what readAllStandardOutput gives
  unfoldable pub on_ota_pull_stdout : Bytes → Panel → Panel
  on_ota_pull_stdout out d =
      let buf = d.stdout_buf ++ qt.from_utf8 out in
      stdout_loop (length buf) (record d { stdout_buf = buf })

  -- Lines 992 to 1003 of onOtaPullLatest.
  unfoldable pub begin_pull : Panel → Panel
  begin_pull d = refresh_ota_labels qt (record (set_value (pos 0) d) {
    stdout_buf = [];
    high_water = 0;
    pull_msg = qt.from_utf8 (text "UPGRADING…");
    bar_label = qt.from_utf8 (text "PROGRESS 0% · READY");
    is_visible = true;
    is_enabled = false;
  })

  -- onOtaPullLatest, with whether ota-agent runs, the answer Yes, and whether it starts in time
  unfoldable pub on_ota_pull_latest : Bool → Bool → Bool → Panel → Panel
  on_ota_pull_latest true agrees starts d =
      refresh_ota_labels qt (record d { pull_msg = qt.from_utf8 (text "升级进行中，请稍候…") })
  on_ota_pull_latest false false starts d = d
  on_ota_pull_latest false true true d = let v = begin_pull d in record v { runs = suc v.runs }
  on_ota_pull_latest false true false d =
      let v = begin_pull d in
      refresh_ota_labels qt (record v {
        runs = suc v.runs;
        pull_msg = text "FAIL: cannot start ota-agent";
        is_visible = false;
        is_enabled = true;
      })

  -- Lines 1029 to 1032 of onOtaPullFinished.
  unfoldable pub last_line : Panel → Panel
  last_line d =
      if is_empty d.stdout_buf
      then d
      else record (apply_ota_progress_line d.stdout_buf d) { stdout_buf = [] }

  -- Lines 1037 to 1053, with whether the run is good, its exit code and what it wrote to stderr.
  unfoldable pub show_end : Bool → ℤ → QString → Panel → Panel
  show_end false code err d = record d {
    pull_msg = qt.arg (qt.arg_int (text "FAIL code=%1\n%2") code) (qt.trimmed err);
    bar_label = text "PROGRESS FAIL";
  }
  show_end true code err d = record (set_value (pos 100) d) {
    pull_msg = qt.arg (text "UPGRADE DONE (reboot if not already)\n%1") (qt.trimmed err);
    bar_label = qt.from_utf8 (text "PROGRESS 100% · DONE");
  }

  -- code == 0
  unfoldable pub is_zero : ℤ → Bool
  is_zero (pos n) = n == 0
  is_zero (negsuc n) = false

  -- onOtaPullFinished, with whether ota-agent ended by itself
  unfoldable pub on_ota_pull_finished : Bool → ℤ → Bytes → Panel → Panel
  on_ota_pull_finished is_normal code err d = refresh_ota_labels qt (
      show_end (is_normal && is_zero code) code (qt.from_utf8 err)
        (record (last_line d) { is_enabled = true }))
