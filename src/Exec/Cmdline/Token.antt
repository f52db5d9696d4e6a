-- ===== src/Exec/Cmdline/Token.antt =====
-- hasCmdlineToken of ota-exec.cpp and the words of a line.
use mathlib.Core.Path.{subst}
use alientek.Prelude.{
  ℕ, zero, suc, ◌≤◌, ◌<◌, true, false, ◌&&◌, Option, none, some, [], ◌∷◌, ◌==◌, ◌≡◌, ◌↔◌, ◌⊎◌, inl,
  inr, refl, arith, Bool-cases, Option-cases, length, drop, All, Bytes, starts_with,
}
use alientek.Prelude.CLaws.{length-drop-le}
use alientek.Exec.Cmdline.{
  starts_token, ends_token, last_byte, find_token, token_loop, has_cmdline_token,
}

-- The token stands at the head of `s`, behind the byte `prev`, as a word of its own.
abbrev pub Here : Bytes → Option ℕ → Bytes → Type 0
Here token prev s =
    (starts_token prev ≡ true)
    × (starts_with s token ≡ true)
    × (ends_token (drop (length token) s) ≡ true)

-- The token is a word of the line `s`, which stands behind the byte `prev`.
abbrev pub HasWord : Bytes → Option ℕ → Bytes → Type 0
HasWord token prev [] = Here token prev []
HasWord token prev (x ∷ s) = Here token prev (x ∷ s) ⊎ HasWord token (some x) s

abbrev pub IsNotSpace : ℕ → Type 0
IsNotSpace c = (c == b' ') ≡ false

module _ (c : ℕ) (cs : Bytes) where
  -- What a search from `s` says of the words of `s`.
  abbrev Found : Option ℕ → Bytes → Option (Option ℕ × Bytes) → Type 0
  Found prev s none = HasWord (c ∷ cs) prev s → ⊥
  Found prev s (some (before, m)) =
      (HasWord (c ∷ cs) prev s ↔ HasWord (c ∷ cs) before m)
      × (starts_with m (c ∷ cs) ≡ true)
      × (length m ≤ length s)

  Found-later :
      (prev : Option ℕ) (x : ℕ) (s : Bytes) (o : Option (Option ℕ × Bytes))
      → starts_with (x ∷ s) (c ∷ cs) ≡ false
      → Found (some x) s o
      → Found prev (x ∷ s) o
  Found-later prev x s none t h =
      λ k. elim k [ inl (a, b, d) ↦ absurd (ground arith) | inr l ↦ h l ]
  Found-later prev x s (some (before, m)) t (h, b, d) = (
    ((λ k. elim k [ inl (p, q, r) ↦ ground arith | inr k ↦ h.0 k ]), λ k. inr (h.1 k)),
    b,
    omega arith,
  )

  starts_with-nil : starts_with [] (c ∷ cs) ≡ true → ⊥
  unfolding starts_with
  starts_with-nil h = ground arith

  find_token-Found : (prev : Option ℕ) (s : Bytes) → Found prev s (find_token c cs prev s)
  unfolding find_token
  find_token-Found prev [] = λ k. starts_with-nil (k.1)
  find_token-Found prev (x ∷ s) = elim (Bool-cases (starts_with (x ∷ s) (c ∷ cs))) [
    | inl t ↦ rw t (((λ k. k), λ k. k), t, omega arith)
    | inr t ↦ rw t (Found-later prev x s _ t (find_token-Found (some x) s))
  ]

-- Behind a byte that is no space, no word begins; so a part of a text that begins with such bytes
-- can be skipped.
skip_word :
    (token : Bytes) (b : ℕ) (t m : Bytes)
    → IsNotSpace b
    → All IsNotSpace t
    → starts_with m t ≡ true
    → HasWord token (some b) m ↔ HasWord token (some (last_byte b t)) (drop (length t) m)
unfolding starts_with starts_token
skip_word token b [] m hb h e = ((λ k. k), λ k. k)
skip_word token b (d ∷ t) [] hb h e = ground arith
skip_word token b (d ∷ t) (x ∷ m) hb h e =
    let same : d ≡ x = ground arith in
    let more : starts_with m t ≡ true = ground arith in
    let (to, from) = skip_word token d t m h.0 h.1 more in
    rw (← same)
      ((λ k. elim k [ inl (p, q, r) ↦ absurd (ground arith) | inr k ↦ to k ]), λ k. inr (from k))

module _ (c : ℕ) (cs : Bytes) (hc : IsNotSpace c) (hcs : All IsNotSpace cs) where
  -- A match that is not a word is left behind whole.
  skip_match :
      (before : Option ℕ) (m : Bytes)
      → starts_with m (c ∷ cs) ≡ true
      → (starts_token before && ends_token (drop (suc (length cs)) m)) ≡ false
      → HasWord (c ∷ cs) before m
        ↔ HasWord (c ∷ cs) (some (last_byte c cs)) (drop (suc (length cs)) m)
  unfolding starts_with
  skip_match before [] e f = ground arith
  skip_match before (x ∷ m) e f =
      let same : c ≡ x = ground arith in
      let more : starts_with m cs ≡ true = ground arith in
      let Rest : Type 0 = HasWord (c ∷ cs) (some (last_byte c cs)) (drop (length cs) m) in
      let (to, from) =
        subst (λ z. HasWord (c ∷ cs) (some z) m ↔ Rest) same
          (skip_word (c ∷ cs) c cs m hc hcs more) in
      ((λ k. elim k [ inl (p, q, r) ↦ absurd (ground arith) | inr l ↦ to l ]), λ k. inr (from k))

  drop_shrinks :
      {n : ℕ} (m : Bytes)
      → starts_with m (c ∷ cs) ≡ true
      → length m ≤ n
      → length (drop (suc (length cs)) m) < n
  unfolding starts_with
  drop_shrinks [] h b = absurd (ground arith)
  drop_shrinks (x ∷ m) h b = omega (arith, length-drop-le (length cs) m)

  here :
      (before : Option ℕ) (m : Bytes)
      → (starts_token before && ends_token (drop (suc (length cs)) m)) ≡ true
      → starts_with m (c ∷ cs) ≡ true
      → HasWord (c ∷ cs) before m
  here before [] t h = ground arith
  here before (x ∷ m) t h = inl (ground arith, h, ground arith)

  token_loop_lem :
      (fuel : ℕ) (prev : Option ℕ) (s : Bytes)
      → length s < fuel
      → (token_loop c cs fuel prev s ≡ true) ↔ HasWord (c ∷ cs) prev s
  unfolding token_loop
  token_loop_lem zero prev s f = absurd (omega arith)
  token_loop_lem (suc fuel) prev s f = elim (Option-cases (find_token c cs prev s)) [
    | inl e ↦
        rw (e, token_loop)
          ((λ t. absurd (ground arith)), λ k. absurd (rw e at (find_token-Found c cs prev s) k))
    | inr ((before, m), e) ↦
        let (word, head, short) = rw e at (find_token-Found c cs prev s) in
        let shrinks : length (drop (suc (length cs)) m) < fuel =
          drop_shrinks m head (omega arith) in
        rw (e, token_loop)
          (elim (Bool-cases (starts_token before && ends_token (drop (suc (length cs)) m))) [
            | inl t ↦ rw t ((λ k. word.1 (here before m t head)), λ k. refl)
            | inr t ↦
                let skip = skip_match before m head t in
                let rest = token_loop_lem fuel (some (last_byte c cs)) _ shrinks in
                rw t ((λ k. word.1 (skip.1 (rest.0 k))), λ k. rest.1 (skip.0 (word.0 k)))
          ])
  ]

-- For a token of at least one byte and without spaces: hasCmdlineToken finds it exactly if it stands
-- somewhere in the line with the start of the line or a space before it, and the end of the line or
-- a whitespace byte behind it. In particular no occurrence is missed by the steps of a whole token.
pub has_cmdline_token_lem :
    (cmdline : Bytes) (c : ℕ) (cs : Bytes)
    → All IsNotSpace (c ∷ cs)
    → (has_cmdline_token cmdline (c ∷ cs) ≡ true) ↔ HasWord (c ∷ cs) none cmdline
unfolding has_cmdline_token
has_cmdline_token_lem cmdline c cs h =
    token_loop_lem c cs h.0 h.1 (suc (length cmdline)) none cmdline (omega arith)
