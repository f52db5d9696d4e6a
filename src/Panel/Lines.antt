-- ===== src/Panel/Lines.antt =====
-- The lines that onOtaPullStdout of dashboard.cpp makes of the output of ota-agent.
use alientek.Prelude.{
  ℕ, zero, suc, ◌≤◌, ◌<◌, false, Bool-cases, none, some, Option-cases, List, [], ◌∷◌, ◌++◌, ◌≡◌,
  ◌≢◌, ◌⊎◌, refl, sym, ap, ◌∙◌, inl, inr, arith, if◌then◌else◌, Bytes, length, text, append_assoc,
  append-nil, All, starts_with, ◌==◌,
}
use alientek.Panel.{Qt, Panel, QString, refresh_ota_labels, set_value}
use alientek.Panel.Update.{
  take_line, show_progress, apply_parts, apply_ota_progress_line, stdout_loop, on_ota_pull_stdout,
}
use alientek.Panel.Shown.{set_buf, on_outputs}

-- A unit in front of lines that have ended and of the rest behind them.
abbrev in_front : ℕ → List QString × QString → List QString × QString
in_front c ([], rest) = ([], c ∷ rest)
in_front c (l ∷ ls, rest) = ((c ∷ l) ∷ ls, rest)

-- The lines that end in a text, without their ends, and what is behind the last end.
unfoldable pub feed_lines : QString → List QString × QString
feed_lines [] = ([], [])
feed_lines (c ∷ s) = let r = feed_lines s in if c == b'\n' then ([] ∷ r.0, r.1) else in_front c r

-- A line in front of others.
abbrev pub first_line : QString → List QString × QString → List QString × QString
first_line l r = (l ∷ r.0, r.1)

in_front_first :
    (c : ℕ) (l : QString) (r : List QString × QString)
    → in_front c (first_line l r) ≡ first_line (c ∷ l) r
in_front_first c l r = refl

take_line-feed_lines :
    (s : QString)
    → ((take_line s ≡ none) × (feed_lines s ≡ ([], s)))
      ⊎ ((r : QString × QString) × (take_line s ≡ some r)
          × (feed_lines s ≡ first_line r.0 (feed_lines r.1))
          × (length r.1 < length s))
unfolding take_line feed_lines
take_line-feed_lines [] = inl (refl, refl)
take_line-feed_lines (c ∷ s) = elim (Bool-cases (c == b'\n')) [
  | inl e ↦ inr (([], s), rw e refl, rw e refl, omega arith)
  | inr e ↦ elim (take_line-feed_lines s) [
    | inl (n, f) ↦ inl (rw e (rw n refl), rw e (ap (in_front c) f))
    | inr (r, n, f, l) ↦
        inr ((c ∷ r.0, r.1), rw e (rw n refl), rw e (ap (in_front c) f), omega (arith, l))
  ]
]

-- What follows is cut into lines behind the rest.
abbrev pub behind_rest : List QString × QString → QString → List QString × QString
behind_rest r t = (r.0 ++ (feed_lines (r.1 ++ t)).0, (feed_lines (r.1 ++ t)).1)

feed_lines-append : (s t : QString) → feed_lines (s ++ t) ≡ behind_rest (feed_lines s) t
unfolding feed_lines
feed_lines-append [] t = refl
feed_lines-append (c ∷ s) t = elim (Bool-cases (c == b'\n')) [
  | inl e ↦ rw e (ap (λ r. ([] ∷ r.0, r.1)) (feed_lines-append s t))
  | inr e ↦ rw e (ap (in_front c) (feed_lines-append s t) ∙ in_front_rest c (feed_lines s) t e)
]
  where
    in_front_rest :
        (c : ℕ) (r : List QString × QString) (t : QString)
        → (c == b'\n') ≡ false
        → in_front c (behind_rest r t) ≡ behind_rest (in_front c r) t
    in_front_rest c ([], rest) t e = rw e refl
    in_front_rest c (l ∷ ls, rest) t e = refl

pub feed_lines-line :
    (l s : QString)
    → All (λ c. c ≢ b'\n') l
    → feed_lines (l ++ (b'\n' ∷ s)) ≡ first_line l (feed_lines s)
unfolding feed_lines
feed_lines-line [] s h = refl
feed_lines-line (c ∷ l) s h =
    let e : (c == b'\n') ≡ false = ground (arith, h.0) in
    rw e (ap (in_front c) (feed_lines-line l s h.1))

-- The rest has no end of a line.
rest_open : (s : QString) → feed_lines (feed_lines s).1 ≡ ([], (feed_lines s).1)
unfolding feed_lines
rest_open [] = refl
rest_open (c ∷ s) = elim (Bool-cases (c == b'\n')) [
  | inl e ↦ rw e (rest_open s)
  | inr e ↦ rw e (still_open c (feed_lines s) e (rest_open s))
]
  where
    still_open :
        (c : ℕ) (r : List QString × QString)
        → (c == b'\n') ≡ false
        → feed_lines r.1 ≡ ([], r.1)
        → feed_lines (in_front c r).1 ≡ ([], (in_front c r).1)
    still_open c ([], rest) e h = rw e (ap (in_front c) h)
    still_open c (l ∷ ls, rest) e h = h

module _ (qt : Qt) where
  abbrev pub apply_lines : List QString → Panel → Panel
  apply_lines [] d = d
  apply_lines (l ∷ ls) d = apply_lines ls (apply_ota_progress_line qt l d)

  apply_lines_append :
      (ls ms : List QString) (d : Panel)
      → apply_lines (ls ++ ms) d ≡ apply_lines ms (apply_lines ls d)
  apply_lines_append [] ms d = refl
  apply_lines_append (l ∷ ls) ms d = apply_lines_append ls ms (apply_ota_progress_line qt l d)

  -- A line is shown the same whatever the rest of the output is.
  apply_parts-set_buf :
      (parts : List QString) (b : QString) (d : Panel)
      → apply_parts qt parts (set_buf qt b d) ≡ set_buf qt b (apply_parts qt parts d)
  unfolding apply_parts show_progress refresh_ota_labels set_value
  apply_parts-set_buf [] b d = refl
  apply_parts-set_buf (name ∷ []) b d = refl
  apply_parts-set_buf (name ∷ percent ∷ rest) b d = elim (Option-cases (qt.to_int percent)) [
    | inl e ↦ rw (e, apply_parts) refl
    | inr (n, e) ↦ rw (e, apply_parts) refl
  ]

  apply_line-set_buf :
      (l b : QString) (d : Panel)
      → apply_ota_progress_line qt l (set_buf qt b d)
        ≡ set_buf qt b (apply_ota_progress_line qt l d)
  unfolding apply_ota_progress_line
  apply_line-set_buf l b d = elim (Bool-cases (starts_with (qt.trimmed l) (text "OTA_PROGRESS"))) [
    | inr e ↦ rw e refl
    | inl e ↦ rw e (apply_parts-set_buf (qt.words (qt.trimmed l)) b d)
  ]

  apply_lines-set_buf :
      (ls : List QString) (b : QString) (d : Panel)
      → apply_lines ls (set_buf qt b d) ≡ set_buf qt b (apply_lines ls d)
  apply_lines-set_buf [] b d = refl
  apply_lines-set_buf (l ∷ ls) b d =
      ap (apply_lines ls) (apply_line-set_buf l b d)
      ∙ apply_lines-set_buf ls b (apply_ota_progress_line qt l d)

  -- The lines of a text are shown, and the rest of it is kept.
  abbrev pub fed : List QString × QString → Panel → Panel
  fed r d = set_buf qt r.1 (apply_lines r.0 d)

  stdout_loop_lem :
      (fuel : ℕ) (b : QString) (d : Panel)
      → length b ≤ fuel
      → stdout_loop qt fuel (set_buf qt b d) ≡ fed (feed_lines b) d
  unfolding stdout_loop feed_lines
  stdout_loop_lem zero [] d h = refl
  stdout_loop_lem zero (c ∷ b) d h = absurd (omega arith)
  stdout_loop_lem (suc fuel) b d h = elim (take_line-feed_lines b) [
    | inl (n, f) ↦ rw (n, stdout_loop) (ap (λ r. fed r d) (sym f))
    | inr (r, n, f, l) ↦
        rw (n, stdout_loop)
          (ap (stdout_loop qt fuel) (apply_line-set_buf r.0 r.1 d)
            ∙ (stdout_loop_lem fuel r.1 (apply_ota_progress_line qt r.0 d) (omega (arith, l))
                ∙ ap (λ r. fed r d) (sym f)))
  ]

  on_ota_pull_stdout_lem :
      (out : Bytes) (b : QString) (d : Panel)
      → on_ota_pull_stdout qt out (set_buf qt b d) ≡ fed (feed_lines (b ++ qt.from_utf8 out)) d
  unfolding on_ota_pull_stdout
  on_ota_pull_stdout_lem out b d =
      stdout_loop_lem (length (b ++ qt.from_utf8 out)) (b ++ qt.from_utf8 out) d (omega arith)

  abbrev pub decoded : List Bytes → QString
  decoded [] = []
  decoded (out ∷ outs) = qt.from_utf8 out ++ decoded outs

  fed_behind :
      (r : List QString × QString) (t : QString) (d : Panel)
      → fed (behind_rest r t) d ≡ fed (feed_lines (r.1 ++ t)) (apply_lines r.0 d)
  fed_behind r t d =
      ap (set_buf qt (feed_lines (r.1 ++ t)).1) (apply_lines_append r.0 (feed_lines (r.1 ++ t)).0 d)

  -- However the output is cut, its lines are shown in turn.
  pub on_outputs_lem :
      (outs : List Bytes) (b : QString) (d : Panel)
      → feed_lines b ≡ ([], b)
      → on_outputs qt outs (set_buf qt b d) ≡ fed (feed_lines (b ++ decoded outs)) d
  on_outputs_lem [] b d h = ap (λ r. fed r d) (sym h ∙ ap feed_lines (sym (append-nil b)))
  on_outputs_lem (out ∷ outs) b d h =
      let s = b ++ qt.from_utf8 out in
      let r = feed_lines s in
      ap (on_outputs qt outs) (on_ota_pull_stdout_lem out b d)
      ∙ (on_outputs_lem outs r.1 (apply_lines r.0 d) (rest_open s)
          ∙ (sym (fed_behind r (decoded outs) d)
              ∙ ap (λ x. fed x d)
                  (sym (feed_lines-append s (decoded outs))
                    ∙ ap feed_lines (append_assoc b (qt.from_utf8 out) (decoded outs)))))
