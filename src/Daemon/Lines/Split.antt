-- ===== src/Daemon/Lines/Split.antt =====
-- The output of ota-agent as consumeOtaChunk of mqtt-agent.cpp takes it, and its lines.
use alientek.Prelude.{
  ℕ, zero, suc, ◌+◌, ◌≤◌, ◌<◌, true, false, Bool-cases, List, [], ◌∷◌, ◌++◌, ◌≡◌, inl, inr, refl,
  sym, ap, ◌∙◌, append-nil, append_assoc, arith, ltb, if◌then◌else◌, Bytes, length, take, c_str,
}
use alientek.Backend.{Backend}
use alientek.Daemon.{Daemon}
use alientek.Daemon.Lines.{
  is_break, looks_like_status_json, set_line, forward_status_line, put_line, emit_text,
  emit_ota_line, consume_byte, consume_ota_chunk,
}

abbrev pub join : List Bytes → Bytes
join [] = []
join (s ∷ rest) = s ++ join rest

-- A byte in front of lines that have ended and of the rest behind them.
abbrev pub in_front : ℕ → List Bytes × Bytes → List Bytes × Bytes
in_front c ([], rest) = ([], c ∷ rest)
in_front c (l ∷ ls, rest) = ((c ∷ l) ∷ ls, rest)

-- The lines that end in a text, without their ends, and what is behind the last end.
unfoldable pub lines_of : Bytes → List Bytes × Bytes
unfolding is_break
lines_of [] = ([], [])
lines_of (c ∷ s) = let r = lines_of s in if is_break c then ([] ∷ r.0, r.1) else in_front c r

-- The same for a text whose first line has begun with `acc`.
abbrev after : Bytes → List Bytes × Bytes → List Bytes × Bytes
after acc ([], rest) = ([], acc ++ rest)
after acc (l ∷ ls, rest) = ((acc ++ l) ∷ ls, rest)

after-in_front :
    (acc : Bytes) (c : ℕ) (r : List Bytes × Bytes)
    → after acc (in_front c r) ≡ after (acc ++ c ∷ []) r
after-in_front acc c ([], rest) = ap (λ t. ([], t)) (sym (append_assoc acc (c ∷ []) rest))
after-in_front acc c (l ∷ ls, rest) = ap (λ t. (t ∷ ls, rest)) (sym (append_assoc acc (c ∷ []) l))

after_nil : (r : List Bytes × Bytes) → after [] r ≡ r
after_nil ([], rest) = refl
after_nil (l ∷ ls, rest) = refl

take_nil : (n : ℕ) → take {A = ℕ} n [] ≡ []
take_nil zero = refl
take_nil (suc n) = refl

take-append_short :
    (n c : ℕ) (s : Bytes) → length (take n s) < n → take n (s ++ c ∷ []) ≡ take n s ++ c ∷ []
take-append_short zero c s h = absurd (omega arith)
take-append_short (suc n) c [] h = ap (◌∷◌ c) (take_nil n)
take-append_short (suc n) c (x ∷ s) h = ap (◌∷◌ x) (take-append_short n c s (omega arith))

take-append_long : (n c : ℕ) (s : Bytes) → n ≤ length (take n s) → take n (s ++ c ∷ []) ≡ take n s
take-append_long zero c s h = refl
take-append_long (suc n) c [] h = absurd (omega arith)
take-append_long (suc n) c (x ∷ s) h = ap (◌∷◌ x) (take-append_long n c s (omega arith))

room : (n : ℕ) → ltb (n + 1) 1024 ≡ true → n < 1023
room n h = ground arith

no_room : (n : ℕ) → ltb (n + 1) 1024 ≡ false → 1023 ≤ n
no_room n h = ground arith

module _ (backend : Backend) where
  -- Each line with a byte in it, cut to 1023 bytes, put and forwarded in turn.
  unfoldable pub emit_lines : List Bytes → Daemon → Daemon
  emit_lines [] d = d
  emit_lines (l ∷ ls) d = emit_lines ls (emit_text backend (take 1023 l) d)

  emit_text_line :
      (c : ℕ) (l x : Bytes) (d : Daemon)
      → emit_text backend (c ∷ l) (set_line x d) ≡ emit_text backend (c ∷ l) d
  unfolding emit_text put_line forward_status_line
  emit_text_line c l x d = elim (Bool-cases (looks_like_status_json (c_str (c ∷ l)))) [
    | inl e ↦ rw e refl
    | inr e ↦ rw e refl
  ]

  -- What stands in the buffer before a line is put has no effect.
  emit_lines_line :
      (ls : List Bytes) (x y : Bytes) (d : Daemon)
      → set_line y (emit_lines ls (set_line x d)) ≡ set_line y (emit_lines ls d)
  unfolding emit_lines emit_text
  emit_lines_line [] x y d = refl
  emit_lines_line ([] ∷ ls) x y d = emit_lines_line ls x y d
  emit_lines_line ((c ∷ l) ∷ ls) x y d =
      ap (λ e. set_line y (emit_lines ls e)) (emit_text_line c (take 1022 l) x d)

  emit_ota_line-emit_text :
      (l : Bytes) (d : Daemon)
      → d.line ≡ l
      → emit_ota_line backend d ≡ set_line [] (emit_text backend l d)
  unfolding emit_ota_line emit_text
  emit_ota_line-emit_text [] d h = ap (λ t. emit_text backend t d) h ∙ ap (λ t. set_line t d) h
  emit_ota_line-emit_text (c ∷ l) d h = ap (λ t. emit_text backend t d) h

  consume_byte_break :
      (c : ℕ) (l : Bytes) (d : Daemon)
      → is_break c ≡ true
      → d.line ≡ l
      → consume_byte backend c d ≡ set_line [] (emit_text backend l d)
  unfolding consume_byte
  consume_byte_break c l d e h = rw e (emit_ota_line-emit_text l d h)

  consume_byte_kept :
      (c : ℕ) (acc : Bytes) (d : Daemon)
      → is_break c ≡ false
      → d.line ≡ take 1023 acc
      → consume_byte backend c d ≡ set_line (take 1023 (acc ++ c ∷ [])) d
  unfolding consume_byte
  consume_byte_kept c acc d e h = elim (Bool-cases (ltb (length d.line + 1) 1024)) [
    | inl short ↦
        let f = room (length (take 1023 acc)) (ap (λ t. ltb (length t + 1) 1024) (sym h) ∙ short) in
        simp (e, short)
          (ap (λ t. set_line t d) (ap (λ t. t ++ c ∷ []) h ∙ sym (take-append_short 1023 c acc f)))
    | inr full ↦
        let f =
          no_room (length (take 1023 acc)) (ap (λ t. ltb (length t + 1) 1024) (sym h) ∙ full) in
        simp (e, full) (ap (λ t. set_line t d) (h ∙ sym (take-append_long 1023 c acc f)))
  ]

  -- The lines `ls` put in turn, with the rest in the buffer.
  abbrev finish : Daemon → List Bytes × Bytes → Daemon
  finish d r = set_line (take 1023 r.1) (emit_lines r.0 d)

  consume_lines :
      (s acc : Bytes) (d : Daemon)
      → d.line ≡ take 1023 acc
      → consume_ota_chunk backend s d ≡ finish d (after acc (lines_of s))
  unfolding consume_ota_chunk lines_of emit_lines
  consume_lines [] acc d h = ap (λ t. set_line t d) (h ∙ ap (take 1023) (sym (append-nil acc)))
  consume_lines (c ∷ s) acc d h = elim (Bool-cases (is_break c)) [
    | inl e ↦
        let x = emit_text backend (take 1023 acc) d in
        let r = lines_of s in
        ap (consume_ota_chunk backend s) (consume_byte_break c (take 1023 acc) d e h)
        ∙ (consume_lines s [] (set_line [] x) refl
            ∙ (ap (finish (set_line [] x)) (after_nil r)
                ∙ (emit_lines_line r.0 [] (take 1023 r.1) x ∙ simp (e, append-nil) refl)))
    | inr e ↦
        let more = acc ++ c ∷ [] in
        let r = after more (lines_of s) in
        ap (consume_ota_chunk backend s) (consume_byte_kept c acc d e h)
        ∙ (consume_lines s more (set_line (take 1023 more) d) refl
            ∙ (emit_lines_line r.0 (take 1023 more) (take 1023 r.1) d
                ∙ (ap (finish d) (sym (after-in_front acc c (lines_of s))) ∙ simp e refl)))
  ]

  -- The chunks in turn.
  unfoldable pub consume_chunks : List Bytes → Daemon → Daemon
  consume_chunks [] d = d
  consume_chunks (chunk ∷ chunks) d = consume_chunks chunks (consume_ota_chunk backend chunk d)

  consume_ota_chunk-append :
      (a b : Bytes) (d : Daemon)
      → consume_ota_chunk backend (a ++ b) d
        ≡ consume_ota_chunk backend b (consume_ota_chunk backend a d)
  unfolding consume_ota_chunk
  consume_ota_chunk-append [] b d = refl
  consume_ota_chunk-append (c ∷ a) b d = consume_ota_chunk-append a b (consume_byte backend c d)

  consume_chunks-join :
      (chunks : List Bytes) (d : Daemon)
      → consume_chunks chunks d ≡ consume_ota_chunk backend (join chunks) d
  unfolding consume_chunks consume_ota_chunk
  consume_chunks-join [] d = refl
  consume_chunks-join (chunk ∷ chunks) d =
      consume_chunks-join chunks (consume_ota_chunk backend chunk d)
      ∙ sym (consume_ota_chunk-append chunk (join chunks) d)

  -- With no part of a line left at the start: however the output of ota-agent is cut into chunks,
  -- consumeOtaChunk puts and forwards each of its lines in turn, cut to 1023 bytes and without the empty
  -- ones, and keeps what is behind the last end of a line, cut to 1023 bytes.
  pub consume_chunks-Lines :
      (chunks : List Bytes) (d : Daemon)
      → d.line ≡ []
      → (let r = lines_of (join chunks) in
          consume_chunks chunks d ≡ set_line (take 1023 r.1) (emit_lines r.0 d))
  consume_chunks-Lines chunks d h =
      consume_chunks-join chunks d
      ∙ (consume_lines (join chunks) [] d h ∙ ap (finish d) (after_nil (lines_of (join chunks))))
