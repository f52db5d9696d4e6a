-- ===== src/Panel.antt =====
-- The update page of the dashboard: its members in dashboard.hpp, refreshOtaLabels of dashboard.cpp, and
-- ota_status.cpp. The widgets are there from the constructor on.
pub mod Update
pub mod Shown
pub mod Lines
pub mod Words
pub mod Follows
use alientek.Prelude.{
  ℕ, zero, suc, ◌+◌, ◌-◌, Bool, true, false, not, ◌&&◌, ◌||◌, Option, none, some, List, [], ◌∷◌,
  ◌++◌, ◌==◌, ltb, leb, if◌then◌else◌, max, Bytes, length, text, str_eq, starts_with, has,
}
use alientek.State.Int.{ℤ, pos, negsuc}

-- A QString, as the list of its UTF-16 units.
abbrev pub QString : Type 0
QString = List ℕ

-- What a QProcess gives: it has not finished in time, or whether it ended by itself, its exit code and
-- its output.
pub data Finished : Type 0 where
  timed_out : Finished
  ended : Bool → ℕ → Bytes → Finished

-- Qt: the functions of QString, and what the programs and files give that are read for the n-th time.
-- `words` is split at spaces without empty parts, `to_int` is toInt, `arg` and `arg_int` are arg with a
-- text and with a number.
pub record Qt : Type 0 where
  pub from_utf8 : Bytes → QString
  pub trimmed : QString → QString
  pub words : QString → List QString
  pub to_int : QString → Option ℤ
  pub arg : QString → QString → QString
  pub arg_int : QString → ℤ → QString
  pub fw_printenv : ℕ → Bytes → Finished
  pub cmdline : ℕ → Option Bytes

-- The members of Dashboard for this page, with what its widgets show: the bar, the label of the bar,
-- whether both are visible, the button, the details and the summary on the home page. `looks` counts
-- how often the status has been read, and `runs` the starts of ota-agent.
pub record Panel : Type 0 where
  pub stdout_buf : QString
  pub high_water : ℕ
  pub pull_msg : QString
  pub bar : ℕ
  pub bar_label : QString
  pub is_visible : Bool
  pub is_enabled : Bool
  pub detail : QString
  pub summary : QString
  pub looks : ℕ
  pub runs : ℕ

pub record OtaStatus : Type 0 where
  pub active_slot : QString
  pub upgrade_available : QString
  pub cmdline_root_hint : QString
  pub is_ok : Bool

-- Lines 665 to 668.
unfoldable pub bounded_percent : ℤ → ℕ
bounded_percent (pos n) = if ltb 100 n then 100 else n
bounded_percent (negsuc n) = 0

-- setValue of PixelProgressBar
unfoldable pub set_value : ℤ → Panel → Panel
unfolding bounded_percent
set_value percent d = record d { bar = bounded_percent percent }

unfoldable pub is_empty : QString → Bool
is_empty [] = true
is_empty (c ∷ s) = false

-- fmtUnavailable
unfoldable pub fmt_unavailable : QString → QString
fmt_unavailable [] = text "N/A"
fmt_unavailable (c ∷ s) = c ∷ s

unfoldable pub dots : ℕ → QString
dots zero = []
dots (suc n) = b'.' ∷ dots n

-- padDots
unfoldable pub pad_dots : QString → QString → QString
pad_dots label value =
    if leb 22 (length label)
    then label ++ (text " " ++ value)
    else label ++ (dots (22 - length label) ++ value)

module _ (qt : Qt) where
  -- fwPrintenv, on what the process gives
  unfoldable pub printed_value : Finished → QString
  printed_value timed_out = []
  printed_value (ended is_normal code out) =
      if not is_normal || not (code == 0) then [] else qt.trimmed (qt.from_utf8 out)

  -- cmdlineRootHint, on what the file gives
  unfoldable pub root_hint : Option Bytes → QString
  unfolding has
  root_hint none = []
  root_hint (some s) =
      let cmd = qt.from_utf8 s in
      if has cmd (text "PARTLABEL=rootfsA")
      then text "rootfsA"
      else if has cmd (text "PARTLABEL=rootfsB")
      then text "rootfsB"
      else []

  -- readOtaStatus, the n-th time
  unfoldable pub read_ota_status : ℕ → OtaStatus
  read_ota_status n =
      let slot = printed_value (qt.fw_printenv n (text "active_slot")) in
      let is_pending = printed_value (qt.fw_printenv n (text "ota_pending")) in
      let available =
        if is_empty is_pending
        then printed_value (qt.fw_printenv n (text "upgrade_available"))
        else is_pending in
      let hint = root_hint (qt.cmdline n) in
      record {
        active_slot = slot;
        upgrade_available = available;
        cmdline_root_hint = hint;
        is_ok = not (is_empty slot) || not (is_empty available) || not (is_empty hint);
      }

  -- Lines 814 to 829 of refreshOtaLabels.
  unfoldable pub detail_text : OtaStatus → QString → QString
  detail_text s msg =
      pad_dots (text "ACTIVE_SLOT") (fmt_unavailable s.active_slot)
      ++ (text "\n"
          ++ (pad_dots (text "UPGRADE_AVAIL") (fmt_unavailable s.upgrade_available)
              ++ (text "\n"
                  ++ (pad_dots (text "CMDLINE_ROOT") (fmt_unavailable s.cmdline_root_hint)
                      ++ (text "\n"
                          ++ (pad_dots (text "FW_BASE") (text "OTA_FIRMWARE_BASE")
                              ++ (text "\nHINT....prefer stamped rootfs-*.swu"
                                  ++ (if is_empty msg
                                      then []
                                      else qt.arg (text "\n\nSTATUS..%1") msg))))))))

  -- refreshOtaLabels
  unfoldable pub refresh_ota_labels : Panel → Panel
  refresh_ota_labels d =
      let s = read_ota_status d.looks in
      record d {
        summary = if s.is_ok then fmt_unavailable s.active_slot else text "N/A";
        detail = detail_text s d.pull_msg;
        looks = suc d.looks;
      }
