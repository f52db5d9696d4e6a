-- ===== src/Tests/Panels.antt =====
-- The update page on a run of ota-agent, with functions for the texts of Qt.
use alientek.Prelude.CLaws.{take-drop}
use alientek.Prelude.{
  ℕ, ◌==◌, true, false, Option, none, some, List, [], ◌∷◌, ◌++◌, ◌≡◌, refl, ap, sym, ◌∙◌, arith,
  Bytes, text, length, All, append_assoc, append-nil, if◌then◌else◌, is_space, skip_while, take,
  drop,
}
use alientek.Defaults.{trim, trim_end}
use alientek.State.Int.{ℤ, pos, negsuc, scan_int, print_nat, print_int, scan_int-print_int}
use alientek.Panel.{Qt, Panel, QString, timed_out}
use alientek.Panel.Update.{begin_pull}
use alientek.Panel.Shown.{Rises, on_outputs, on_outputs_rise}
use alientek.Panel.Words.{IsInk, EndsInk, IsQt}
use alientek.Panel.Follows.{agent_output, reported, on_outputs_follow}
use alientek.Tests.Machine.{booted}

abbrev with_word : QString → List QString → List QString
with_word [] ws = ws
with_word (c ∷ w) ws = (c ∷ w) ∷ ws

-- The words of a text that goes on behind `acc`.
unfoldable words_from : QString → QString → List QString
words_from acc [] = with_word acc []
words_from acc (c ∷ s) =
    let here = with_word acc (words_from [] s) in
    let more = words_from (acc ++ c ∷ []) s in if c == b' ' then here else more

words_from_ink :
    (acc w s : QString) → All IsInk w → words_from acc (w ++ s) ≡ words_from (acc ++ w) s
unfolding words_from
words_from_ink acc [] s h = ap (λ z. words_from z s) (sym (append-nil acc))
words_from_ink acc (c ∷ w) s h =
    let e : (c == b' ') ≡ false = ground (arith, h.0) in
    rw e (
      words_from_ink (acc ++ c ∷ []) w s h.1
      ∙ ap (λ z. words_from z s) (append_assoc acc (c ∷ []) w))

ink_solid : (c : ℕ) → IsInk c → is_space c ≡ false
unfolding is_space
ink_solid c h = ground (arith, h)

trim_end_same : (c : ℕ) (s : QString) → EndsInk c s → trim_end (c ∷ s) ≡ c ∷ s
unfolding trim_end
trim_end_same c [] h = rw (ink_solid c h) refl
trim_end_same c (d ∷ s) h = rw (trim_end_same d s h, trim_end) refl

tail_same : (c : ℕ) (s : QString) → EndsInk c s → trim_end s ≡ s
unfolding trim_end
tail_same c [] h = refl
tail_same c (d ∷ s) h = trim_end_same d s h

unfoldable number_of : QString → Option ℤ
number_of s = elim (scan_int s) [
  | none ↦ none
  | some r ↦ if length r.1 == 0 then some r.0 else none
]

number_of_found : (s : QString) (i : ℤ) → scan_int s ≡ some (i, []) → number_of s ≡ some i
unfolding number_of
number_of_found s i e = rw (e, number_of) refl

-- A system that answers no call in time.
abbrev qt : Qt
qt = record {
  from_utf8 = λ s. s;
  trimmed = trim;
  words = words_from [];
  to_int = number_of;
  arg = λ s t. s ++ t;
  arg_int = λ s n. s ++ print_int n;
  fw_printenv = λ n name. timed_out;
  cmdline = λ n. none;
}

qt-IsQt : IsQt qt
unfolding words_from number_of trim skip_while print_int
qt-IsQt = record {
  utf8_ascii = λ s h. refl;
  trimmed_same = λ c s h e. rw (ink_solid c h) (ap (λ t. c ∷ t) (tail_same c s e));
  words_one =
      λ c w h. ap (words_from []) (sym (append-nil (c ∷ w))) ∙ words_from_ink [] (c ∷ w) [] h;
  words_more = λ c w s h. words_from_ink [] (c ∷ w) (b' ' ∷ s) h;
  to_int_nat = λ n h.
      number_of_found (print_nat n) (pos n)
        (ap scan_int (sym (append-nil (print_nat n))) ∙ scan_int-print_int (pos n) [] tt);
}

abbrev blank : Panel
blank = record {
  stdout_buf = [];
  high_water = 0;
  pull_msg = [];
  bar = 0;
  bar_label = [];
  is_visible = true;
  is_enabled = false;
  detail = [];
  summary = [];
  looks = 0;
  runs = 0;
}

abbrev reports : List (ℤ × Bytes)
reports =
    (pos 3, text "resolving") ∷ (negsuc 0, text "downloading") ∷ (pos 95, text "upgrading") ∷ []

-- The output of the agent in two pieces.
abbrev pieces : List Bytes
pieces = take 20 (agent_output reports booted) ∷ drop 20 (agent_output reports booted) ∷ []

follow_example :
    ((on_outputs qt pieces blank).bar ≡ (reported reports booted).high_water)
    × ((on_outputs qt pieces blank).stdout_buf ≡ [])
follow_example =
    on_outputs_follow qt reports booted pieces blank qt-IsQt (ground arith)
      (ap (λ z. take 20 (agent_output reports booted) ++ z) (append-nil _)
        ∙ sym (take-drop 20 (agent_output reports booted)))
      (record { same = refl; percent = omega arith }) refl refl

rise_example : Rises (on_outputs qt (text "OTA_PROGRESS 70 x\nOTA_" ∷ []) (begin_pull qt blank)) (
    on_outputs qt
      (text "PROGRESS 20 x\n" ∷ [])
      (on_outputs qt (text "OTA_PROGRESS 70 x\nOTA_" ∷ []) (begin_pull qt blank)))
rise_example =
    on_outputs_rise qt (text "OTA_PROGRESS 70 x\nOTA_" ∷ []) (text "PROGRESS 20 x\n" ∷ []) blank
