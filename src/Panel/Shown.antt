-- ===== src/Panel/Shown.antt =====
-- What the bar of the update page shows while ota-agent runs: applyOtaProgressLine of dashboard.cpp.
use alientek.Prelude.{
  ℕ, zero, suc, ◌≤◌, Bool-cases, Option-cases, List, [], ◌∷◌, ◌++◌, ◌≡◌, inl, inr, arith, max,
  Bytes, length, text, starts_with,
}
use alientek.State.Int.{ℤ, pos, negsuc}
use alientek.Panel.{Qt, Panel, QString, bounded_percent, set_value, refresh_ota_labels}
use alientek.Panel.Update.{
  take_line, show_progress, first_of, apply_parts, apply_ota_progress_line, stdout_loop,
  on_ota_pull_stdout, begin_pull,
}

-- The bar shows the mark, which is a percentage.
pub record IsShown (d : Panel) : Type 0 where
  pub same : d.bar ≡ d.high_water
  pub percent : d.high_water ≤ 100

-- The bar has not fallen from `d` to `v`.
pub record Rises (d v : Panel) : Type 0 where
  pub shown : IsShown v
  pub rises : d.high_water ≤ v.high_water

stays : (d : Panel) → IsShown d → Rises d d
stays d s = record { shown = s; rises = omega arith }

Rises-trans : {d v w : Panel} → Rises d v → Rises v w → Rises d w
Rises-trans a b = record { shown = b.shown; rises = omega (arith, a.rises, b.rises) }

bounded_percent_le : (n : ℤ) → bounded_percent n ≤ 100
unfolding bounded_percent
bounded_percent_le (pos n) = ground arith
bounded_percent_le (negsuc n) = omega arith

pub bounded_percent_small : (n : ℕ) → n ≤ 100 → bounded_percent (pos n) ≡ n
unfolding bounded_percent
bounded_percent_small n h = ground arith

module _ (qt : Qt) where
  show_progress-Rises :
      (n : ℤ) (stage : QString) (d : Panel) → IsShown d → Rises d (show_progress qt n stage d)
  unfolding show_progress refresh_ota_labels set_value
  show_progress-Rises n stage d s =
      let m = max (bounded_percent n) d.high_water in
      let le : m ≤ 100 = omega (arith, bounded_percent_le n, s.percent) in
      record {
        shown = record { same = bounded_percent_small m le; percent = le };
        rises = omega arith;
      }

  apply_parts-Rises :
      (parts : List QString) (d : Panel) → IsShown d → Rises d (apply_parts qt parts d)
  unfolding apply_parts
  apply_parts-Rises [] d s = stays d s
  apply_parts-Rises (name ∷ []) d s = stays d s
  apply_parts-Rises (name ∷ percent ∷ rest) d s = elim (Option-cases (qt.to_int percent)) [
    | inl e ↦ rw (e, apply_parts) (stays d s)
    | inr (n, e) ↦ rw (e, apply_parts) (show_progress-Rises n (first_of qt rest) d s)
  ]

  apply_ota_progress_line-Rises :
      (line : QString) (d : Panel) → IsShown d → Rises d (apply_ota_progress_line qt line d)
  unfolding apply_ota_progress_line
  apply_ota_progress_line-Rises line d s =
      elim (Bool-cases (starts_with (qt.trimmed line) (text "OTA_PROGRESS"))) [
        | inr e ↦ rw e (stays d s)
        | inl e ↦ rw e (apply_parts-Rises (qt.words (qt.trimmed line)) d s)
      ]

  -- Another rest of the output.
  abbrev pub set_buf : QString → Panel → Panel
  set_buf buf d = record d { stdout_buf = buf }

  set_buf-Rises : (buf : QString) (d v : Panel) → Rises (set_buf buf d) v → Rises d v
  set_buf-Rises buf d v r = record { shown = r.shown; rises = r.rises }

  set_buf-IsShown : (buf : QString) (d : Panel) → IsShown d → IsShown (set_buf buf d)
  set_buf-IsShown buf d s = record { same = s.same; percent = s.percent }

  stdout_loop-Rises : (fuel : ℕ) (d : Panel) → IsShown d → Rises d (stdout_loop qt fuel d)
  unfolding stdout_loop
  stdout_loop-Rises zero d s = stays d s
  stdout_loop-Rises (suc fuel) d s = elim (Option-cases (take_line d.stdout_buf)) [
    | inl e ↦ rw (e, stdout_loop) (stays d s)
    | inr (r, e) ↦
        let a = apply_ota_progress_line-Rises r.0 (set_buf r.1 d) (set_buf-IsShown r.1 d s) in
        rw (e, stdout_loop)
          (set_buf-Rises r.1 d _ (
            Rises-trans a
              (stdout_loop-Rises fuel (apply_ota_progress_line qt r.0 (set_buf r.1 d)) a.shown)))
  ]

  -- The handler on one output after the other.
  abbrev pub on_outputs : List Bytes → Panel → Panel
  on_outputs [] d = d
  on_outputs (out ∷ outs) d = on_outputs outs (on_ota_pull_stdout qt out d)

  pub on_outputs-Rises : (outs : List Bytes) (d : Panel) → IsShown d → Rises d (on_outputs outs d)
  unfolding on_ota_pull_stdout
  on_outputs-Rises [] d s = stays d s
  on_outputs-Rises (out ∷ outs) d s =
      let buf = d.stdout_buf ++ qt.from_utf8 out in
      let a =
        set_buf-Rises buf d _
          (stdout_loop-Rises (length buf) (set_buf buf d) (set_buf-IsShown buf d s)) in
      Rises-trans a (on_outputs-Rises outs (on_ota_pull_stdout qt out d) a.shown)

  begin_pull-IsShown : (d : Panel) → IsShown (begin_pull qt d)
  unfolding begin_pull refresh_ota_labels set_value
  begin_pull-IsShown d = record {
    same = bounded_percent_small 0 (omega arith);
    percent = omega arith;
  }

-- Whatever ota-agent prints, in whatever pieces, and whatever Qt makes of it: from the start of an
-- update on, the bar shows otaProgressHighWater_, a percentage from 0 to 100 that never falls.
pub on_outputs_rise :
    (qt : Qt) (before later : List Bytes) (d : Panel)
    → Rises
        (on_outputs qt before (begin_pull qt d))
        (on_outputs qt later (on_outputs qt before (begin_pull qt d)))
on_outputs_rise qt before later d =
    on_outputs-Rises qt later (on_outputs qt before (begin_pull qt d))
      (on_outputs-Rises qt before (begin_pull qt d) (begin_pull-IsShown qt d)).shown
