-- ===== src/Panel/Follows.antt =====
-- The update page of dashboard.cpp on what emitOtaProgress of ota-agent.cpp prints.
use mathlib.Core.Path.{subst}
use alientek.Prelude.{
  ◌≤◌, ◌<◌, List, [], ◌∷◌, ◌++◌, ◌≡◌, ◌≢◌, refl, sym, ap, ◌∙◌, arith, Bytes, All, All-append,
}
use alientek.World.{World, Event, printed}
use alientek.Agent.{progress_line, emit_ota_progress}
use alientek.State.Int.{ℤ, pos, negsuc}
use alientek.Panel.{Qt, Panel}
use alientek.Panel.Update.{apply_ota_progress_line}
use alientek.Panel.Shown.{IsShown, set_buf, on_outputs, on_outputs-Rises}
use alientek.Panel.Lines.{feed_lines, feed_lines-line, apply_lines, decoded, on_outputs_lem, fed}
use alientek.Daemon.Lines.Split.{join}
use alientek.Panel.Words.{IsQt, IsStage, line, line-All, line_shown, progress_line_lem, All-split}

-- What emitOtaProgress has printed last.
abbrev pub last_printed : List Event → Bytes
last_printed (printed s ∷ log) = s
last_printed _ = []

-- The world after some reports, and what they print.
abbrev pub reported : List (ℤ × Bytes) → World → World
reported [] w = w
reported ((n, stage) ∷ reports) w = reported reports (emit_ota_progress n stage w)

abbrev pub agent_output : List (ℤ × Bytes) → World → Bytes
agent_output [] w = []
agent_output ((n, stage) ∷ reports) w =
    let v = emit_ota_progress n stage w in last_printed v.log ++ agent_output reports v

emit_prints :
    (n : ℤ) (stage : Bytes) (w : World)
    → w.high_water ≤ 100
    → (last_printed (emit_ota_progress n stage w).log
        ≡ progress_line (emit_ota_progress n stage w).high_water stage)
      × ((emit_ota_progress n stage w).high_water ≤ 100)
      × (w.high_water ≤ (emit_ota_progress n stage w).high_water)
unfolding emit_ota_progress
emit_prints (pos n) stage w h = (refl, ground arith, omega arith)
emit_prints (negsuc n) stage w h = (refl, ground arith, omega arith)

abbrev AreStages : List (ℤ × Bytes) → Type 0
AreStages reports = All (λ r. IsStage r.1) reports

agent_output_ascii :
    (reports : List (ℤ × Bytes)) (w : World)
    → AreStages reports
    → w.high_water ≤ 100
    → All (λ c. c < 128) (agent_output reports w)
agent_output_ascii [] w a h = tt
agent_output_ascii ((n, stage) ∷ reports) w a h =
    let v = emit_ota_progress n stage w in
    let (e, le, up) = emit_prints n stage w h in
    let m = v.high_water in
    let p =
      ap (λ x. x ++ agent_output reports v) e
      ∙ progress_line_lem m stage (agent_output reports v) in
    subst (All (λ c. c < 128)) (sym p) (
      All-append (λ c. c < 128) (line m stage) _
        (line-All (λ c. c < 128) m stage (λ c i. omega (arith, i.1)) (omega arith) a.0)
        (omega arith, agent_output_ascii reports v a.1 le))

module _ (qt : Qt) (laws : IsQt qt) where
  decoded-join : (outs : List Bytes) → All (λ c. c < 128) (join outs) → decoded qt outs ≡ join outs
  decoded-join [] h = refl
  decoded-join (out ∷ outs) h =
      let (a, b) = All-split (λ c. c < 128) out (join outs) h in
      ap (λ x. x ++ decoded qt outs) (laws.utf8_ascii out a)
      ∙ ap (λ x. out ++ x) (decoded-join outs b)

  lines_follow :
      (reports : List (ℤ × Bytes)) (w : World) (d : Panel)
      → AreStages reports
      → w.high_water ≤ 100
      → d.high_water ≡ w.high_water
      → ((apply_lines qt (feed_lines (agent_output reports w)).0 d).high_water
          ≡ (reported reports w).high_water)
        × ((feed_lines (agent_output reports w)).1 ≡ [])
  unfolding feed_lines
  lines_follow [] w d a h e = (e, refl)
  lines_follow ((n, stage) ∷ reports) w d a h e =
      let v = emit_ota_progress n stage w in
      let (f, le, up) = emit_prints n stage w h in
      let m = v.high_water in
      let s = agent_output reports v in
      let p =
        ap feed_lines (ap (λ x. x ++ s) f ∙ progress_line_lem m stage s)
        ∙ feed_lines-line (line m stage) s (
            line-All (λ c. c ≢ b'\n') m stage (λ c i z. absurd (omega (arith, i.0, z)))
              (λ z. absurd (omega (arith, z))) a.0) in
      let u = apply_ota_progress_line qt (line m stage) d in
      let k : u.high_water ≡ m = line_shown qt laws m stage d a.0 le ∙ omega (arith, e, up) in
      let (x, y) = lines_follow reports v u a.1 le k in
      (ap (λ r. (apply_lines qt r.0 d).high_water) p ∙ x, ap (λ r. r.1) p ∙ y)

-- Where Qt reads ASCII texts as it should, the stages are words, and the page and ota-agent have the
-- same mark, at most 100, with no output pending: however the output of ota-agent is cut, behind it
-- the bar shows the mark of ota-agent, and no output is pending.
pub on_outputs_follow :
    (qt : Qt) (reports : List (ℤ × Bytes)) (w : World) (outs : List Bytes) (d : Panel)
    → IsQt qt
    → All (λ r. IsStage r.1) reports
    → join outs ≡ agent_output reports w
    → IsShown d
    → d.high_water ≡ w.high_water
    → d.stdout_buf ≡ []
    → ((on_outputs qt outs d).bar ≡ (reported reports w).high_water)
      × ((on_outputs qt outs d).stdout_buf ≡ [])
unfolding feed_lines
on_outputs_follow qt reports w outs d laws a j s e b =
    let h : w.high_water ≤ 100 = omega (arith, e, s.percent) in
    let g = subst (All (λ c. c < 128)) (sym j) (agent_output_ascii reports w a h) in
    let (x, y) = lines_follow qt laws reports w d a h e in
    let p =
      ap (λ z. on_outputs qt outs (set_buf qt z d)) b
      ∙ (on_outputs_lem qt outs [] d refl
          ∙ ap (λ z. fed qt (feed_lines z) d) (decoded-join qt laws outs g ∙ j)) in
    let r = on_outputs-Rises qt outs d s in
    (r.shown.same ∙ (ap (λ v. v.high_water) p ∙ x), ap (λ v. v.stdout_buf) p ∙ y)
