-- ===== src/Exec/Cmdline/Word.antt =====
-- hasCmdlineToken of ota-exec.cpp: the words of a line, by the texts around them.
use mathlib.Core.Path.{subst}
use alientek.Prelude.CLaws.{starts_with-append, starts_with-split, drop_append}
use alientek.Prelude.{
  ℕ, ◌≤◌, true, Option, none, some, [], ◌∷◌, ◌++◌, ◌≡◌, ◌↔◌, ◌⊎◌, inl, inr, refl, sym, ap, ◌∙◌,
  arith, length, drop, All, Bytes, is_space,
}
use alientek.Exec.Cmdline.{starts_token, ends_token, has_cmdline_token}
use alientek.Exec.Cmdline.Token.{Here, HasWord, IsNotSpace, has_cmdline_token_lem}

-- A space, or a byte from the tabulator to the carriage return.
abbrev pub IsWhite : ℕ → Type 0
IsWhite c = (c ≡ 32) ⊎ ((9 ≤ c) × (c ≤ 13))

abbrev pub BeginsWord : Bytes → Type 0
BeginsWord before = (before ≡ []) ⊎ ((b : Bytes) × (before ≡ b ++ (32 ∷ [])))

abbrev pub EndsWord : Bytes → Type 0
EndsWord [] = Unit
EndsWord (c ∷ s) = IsWhite c

-- The token stands in the line, at its start or behind a space, and at its end or in front of a white
-- byte.
pub record IsWord (token line : Bytes) : Type 0 where
  pub before : Bytes
  pub after : Bytes
  pub splits : line ≡ before ++ (token ++ after)
  pub begins : BeginsWord before
  pub ends : EndsWord after

ends_token-EndsWord : (s : Bytes) → ends_token s ≡ true → EndsWord s
unfolding ends_token is_space
ends_token-EndsWord [] h = tt
ends_token-EndsWord (c ∷ s) h = ground (arith, h)

EndsWord-ends_token : (s : Bytes) → EndsWord s → ends_token s ≡ true
unfolding ends_token is_space
EndsWord-ends_token [] h = refl
EndsWord-ends_token (c ∷ s) h = ground (arith, h)

-- The byte in front of what stands behind `before`.
abbrev last : Option ℕ → Bytes → Option ℕ
last prev [] = prev
last prev (x ∷ b) = last (some x) b

last_space : (prev : Option ℕ) (b : Bytes) → last prev (b ++ (32 ∷ [])) ≡ some 32
last_space prev [] = refl
last_space prev (x ∷ b) = last_space (some x) b

begins_behind :
    (x : ℕ) (b : Bytes)
    → starts_token (last (some x) b) ≡ true
    → (t : Bytes) × (x ∷ b ≡ t ++ (32 ∷ []))
unfolding starts_token
begins_behind x [] h = let e : x ≡ 32 = ground (arith, h) in ([], ap (λ z. z ∷ []) e)
begins_behind x (y ∷ b) h = let (t, e) = begins_behind y b h in (x ∷ t, ap (λ z. x ∷ z) e)

starts_token-BeginsWord : (b : Bytes) → starts_token (last none b) ≡ true → BeginsWord b
starts_token-BeginsWord [] h = inl refl
starts_token-BeginsWord (x ∷ b) h = inr (begins_behind x b h)

BeginsWord-starts_token : (b : Bytes) → BeginsWord b → starts_token (last none b) ≡ true
unfolding starts_token
BeginsWord-starts_token b (inl e) = ap (λ z. starts_token (last none z)) e
BeginsWord-starts_token b (inr (t, e)) =
    ap (λ z. starts_token (last none z)) e ∙ ap starts_token (last_space none t)

-- A word of what stands behind the byte `prev`.
pub record Stands (token : Bytes) (prev : Option ℕ) (s : Bytes) : Type 0 where
  pub before : Bytes
  pub after : Bytes
  pub splits : s ≡ before ++ (token ++ after)
  pub begins : starts_token (last prev before) ≡ true
  pub ends : ends_token after ≡ true

module _ (token : Bytes) where
  Here-Stands : (prev : Option ℕ) (s : Bytes) → Here token prev s → Stands token prev s
  Here-Stands prev s (b, h, e) = record {
    before = [];
    after = drop (length token) s;
    splits = starts_with-split s token h;
    begins = b;
    ends = e;
  }

  HasWord-Stands : (prev : Option ℕ) (s : Bytes) → HasWord token prev s → Stands token prev s
  HasWord-Stands prev [] h = Here-Stands prev [] h
  HasWord-Stands prev (x ∷ s) (inl h) = Here-Stands prev (x ∷ s) h
  HasWord-Stands prev (x ∷ s) (inr h) =
      let r = HasWord-Stands (some x) s h in
      record {
        before = x ∷ r.before;
        after = r.after;
        splits = ap (λ z. x ∷ z) r.splits;
        begins = r.begins;
        ends = r.ends;
      }

  Here-HasWord : (prev : Option ℕ) (s : Bytes) → Here token prev s → HasWord token prev s
  Here-HasWord prev [] h = h
  Here-HasWord prev (x ∷ s) h = inl h

  Stands-HasWord :
      (prev : Option ℕ) (before after : Bytes)
      → starts_token (last prev before) ≡ true
      → ends_token after ≡ true
      → HasWord token prev (before ++ (token ++ after))
  Stands-HasWord prev [] after b e =
      Here-HasWord prev (token ++ after)
        (b, starts_with-append token after, ap ends_token (drop_append token after) ∙ e)
  Stands-HasWord prev (x ∷ before) after b e = inr (Stands-HasWord (some x) before after b e)

-- hasCmdlineToken finds a token of at least one byte and without spaces exactly if the line is a text
-- that is empty or ends in a space, the token, and a text that is empty or begins with a white byte:
-- a space, or a byte from the tabulator to the carriage return.
pub has_cmdline_token-IsWord :
    (cmdline : Bytes) (c : ℕ) (cs : Bytes)
    → All IsNotSpace (c ∷ cs)
    → (has_cmdline_token cmdline (c ∷ cs) ≡ true) ↔ IsWord (c ∷ cs) cmdline
has_cmdline_token-IsWord cmdline c cs h =
    let (to, from) = has_cmdline_token_lem cmdline c cs h in
    (
      (λ t.
          let r = HasWord-Stands (c ∷ cs) none cmdline (to t) in
          record {
            before = r.before;
            after = r.after;
            splits = r.splits;
            begins = starts_token-BeginsWord r.before r.begins;
            ends = ends_token-EndsWord r.after r.ends;
          }),
      (λ w. from (
          subst (HasWord (c ∷ cs) none) (sym w.splits) (
            Stands-HasWord (c ∷ cs) none w.before w.after
              (BeginsWord-starts_token w.before w.begins) (EndsWord-ends_token w.after w.ends)))),
    )
