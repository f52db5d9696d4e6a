-- ===== src/Panel/Words.antt =====
-- The lines of emitOtaProgress of ota-agent.cpp as applyOtaProgressLine of dashboard.cpp reads them.
use alientek.Prelude.{
  ℕ, zero, suc, ◌≤◌, ◌<◌, Bool-cases, some, [], ◌∷◌, ◌++◌, ◌≡◌, ◌≢◌, refl, sym, ap, ◌∙◌, inl, inr,
  arith, max, Bytes, length, text, append_assoc, All, All-append, ◌^◌, ◌/◌, ltb,
}
use alientek.Agent.{progress_line}
use alientek.State.Int.{pos, print_nat, digits_from, digits_from-head}
use alientek.Panel.{Qt, Panel, QString, refresh_ota_labels, set_value}
use alientek.Panel.Update.{show_progress, apply_parts, apply_ota_progress_line}
use alientek.Panel.Shown.{bounded_percent_small}

-- A printable ASCII character other than the space.
abbrev pub IsInk : ℕ → Type 0
IsInk c = (32 < c) × (c < 127)

-- The last character of a text that is not empty.
abbrev pub EndsInk : ℕ → QString → Type 0
EndsInk c [] = IsInk c
EndsInk c (d ∷ s) = EndsInk d s

-- What the page relies on of Qt, on ASCII texts: UTF-8 is read as it is, a text that begins and ends
-- with printable characters has nothing to trim, words are split at single spaces, and toInt reads
-- a number of int.
pub record IsQt (qt : Qt) : Type 0 where
  pub utf8_ascii : (s : Bytes) → All (λ c. c < 128) s → qt.from_utf8 s ≡ s
  pub trimmed_same : (c : ℕ) (s : QString) → IsInk c → EndsInk c s → qt.trimmed (c ∷ s) ≡ c ∷ s
  pub words_one : (c : ℕ) (w : QString) → All IsInk (c ∷ w) → qt.words (c ∷ w) ≡ (c ∷ w) ∷ []
  pub words_more :
      (c : ℕ) (w s : QString)
      → All IsInk (c ∷ w)
      → qt.words ((c ∷ w) ++ (b' ' ∷ s)) ≡ (c ∷ w) ∷ qt.words s
  pub to_int_nat : (n : ℕ) → n < 2 ^ 31 → qt.to_int (print_nat n) ≡ some (pos n)

pub All-split : (P : ℕ → Type 0) (s t : Bytes) → All P (s ++ t) → All P s × All P t
All-split P [] t h = (tt, h)
All-split P (c ∷ s) t h = let r = All-split P s t h.1 in ((h.0, r.0), r.1)

All-weak : (P Q : ℕ → Type 0) → ((c : ℕ) → P c → Q c) → (s : Bytes) → All P s → All Q s
All-weak P Q f [] h = tt
All-weak P Q f (c ∷ s) h = (f c h.0, All-weak P Q f s h.1)

digits_from-IsInk : (f n : ℕ) (rest : Bytes) → All IsInk rest → All IsInk (digits_from f n rest)
unfolding digits_from
digits_from-IsInk zero n rest h = ((omega arith, omega arith), h)
digits_from-IsInk (suc f) n rest h = elim (Bool-cases (ltb n 10)) [
  | inl e ↦ rw e ((omega arith, omega arith), h)
  | inr e ↦ rw e (digits_from-IsInk f (n / 10) _ ((omega arith, omega arith), h))
]

print_nat-IsInk : (n : ℕ) → All IsInk (print_nat n)
unfolding print_nat
print_nat-IsInk n = digits_from-IsInk n n [] tt

ends_ink : (c : ℕ) (s : QString) → All IsInk (c ∷ s) → EndsInk c s
ends_ink c [] h = h.0
ends_ink c (d ∷ s) h = ends_ink d s h.1

EndsInk-append : (c d : ℕ) (s t : QString) → EndsInk d t → EndsInk c (s ++ (d ∷ t))
EndsInk-append c d [] t h = h
EndsInk-append c d (x ∷ s) t h = EndsInk-append x d s t h

-- A stage: a word.
abbrev pub IsStage : Bytes → Type 0
IsStage [] = ⊥
IsStage (c ∷ s) = All IsInk (c ∷ s)

-- A line of emitOtaProgress without its end.
abbrev pub line : ℕ → Bytes → Bytes
line n stage = text "OTA_PROGRESS " ++ (print_nat n ++ (text " " ++ stage))

pub progress_line_lem :
    (n : ℕ) (stage s : Bytes) → progress_line n stage ++ s ≡ line n stage ++ (b'\n' ∷ s)
progress_line_lem n stage s =
    ap (λ x. text "OTA_PROGRESS " ++ x)
      (append_assoc (print_nat n) _ s
        ∙ (ap (λ x. print_nat n ++ (text " " ++ x)) (append_assoc stage (text "\n") s)
            ∙ sym (append_assoc (print_nat n) (text " " ++ stage) (b'\n' ∷ s))))

name-IsInk : All IsInk (text "OTA_PROGRESS")
name-IsInk = ground arith

print_nat_not_nil : (n : ℕ) → print_nat n ≢ []
unfolding print_nat
print_nat_not_nil n e =
    let (c, s, f, d) = digits_from-head n n [] in
    let l : length (c ∷ s) ≡ 0 = ap length (sym f ∙ e) in absurd (omega (arith, l))

-- What holds of printable characters and of the space.
pub line-All :
    (P : ℕ → Type 0) (n : ℕ) (stage : Bytes)
    → ((c : ℕ) → IsInk c → P c)
    → P b' '
    → IsStage stage
    → All P (line n stage)
line-All P n [] f b h = absurd h
line-All P n (c ∷ s) f b h =
    All-append P (text "OTA_PROGRESS ") _
      (All-append P (text "OTA_PROGRESS") (text " ")
        (All-weak IsInk P f (text "OTA_PROGRESS") name-IsInk) (b, tt))
      (All-append P (print_nat n) _ (All-weak IsInk P f (print_nat n) (print_nat-IsInk n))
        (b, All-weak IsInk P f (c ∷ s) h))

module _ (qt : Qt) (laws : IsQt qt) where
  line_trimmed : (n : ℕ) (stage : Bytes) → IsStage stage → qt.trimmed (line n stage) ≡ line n stage
  line_trimmed n [] h = absurd h
  line_trimmed n (c ∷ s) h =
      laws.trimmed_same b'O' _ (omega arith, omega arith)
        (EndsInk-append b'O' b' ' (text "TA_PROGRESS") (print_nat n ++ (b' ' ∷ c ∷ s))
          (EndsInk-append b' ' b' ' (print_nat n) (c ∷ s) (ends_ink c s h)))

  number_words :
      (n : ℕ) (s w : QString)
      → print_nat n ≡ w
      → All IsInk w
      → qt.words (w ++ (b' ' ∷ s)) ≡ w ∷ qt.words s
  number_words n s [] e h = absurd (print_nat_not_nil n e)
  number_words n s (c ∷ w) e h = laws.words_more c w s h

  line_words :
      (n : ℕ) (stage : Bytes)
      → IsStage stage
      → qt.words (line n stage) ≡ text "OTA_PROGRESS" ∷ print_nat n ∷ stage ∷ []
  line_words n [] h = absurd h
  line_words n (c ∷ s) h =
      laws.words_more b'O' (text "TA_PROGRESS") (print_nat n ++ (b' ' ∷ c ∷ s)) name-IsInk
      ∙ ap (λ x. text "OTA_PROGRESS" ∷ x)
          (number_words n (c ∷ s) (print_nat n) refl (print_nat-IsInk n)
            ∙ ap (λ x. print_nat n ∷ x) (laws.words_one c s h))

  -- A line of the agent puts the mark up to its number.
  pub line_shown :
      (n : ℕ) (stage : Bytes) (d : Panel)
      → IsStage stage
      → n ≤ 100
      → (apply_ota_progress_line qt (line n stage) d).high_water ≡ max n d.high_water
  unfolding apply_ota_progress_line apply_parts show_progress refresh_ota_labels set_value
  line_shown n stage d h le =
      let i = laws.to_int_nat n (omega arith) in
      rw (line_trimmed n stage h) (
        rw (line_words n stage h)
          (rw (i, apply_parts) (ap (λ m. max m d.high_water) (bounded_percent_small n le))))
