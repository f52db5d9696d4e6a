-- ===== src/Defaults/Assign.antt =====
-- otaApplyDefaultAssignment on lines KEY='value' and export KEY='value'.
use alientek.Prelude.{
  ℕ, false, some, [], ◌∷◌, ◌++◌, ◌≡◌, refl, ◌⊎◌, arith, ◌==◌, ==_refl, All, Bytes, is_space,
  starts_with, text, append_assoc,
}
use alientek.Prelude.CLaws.{before_stop, str_chr_stop}
use alientek.Defaults.{trim, strip_last, unquote, split_assignment, drop_export, parse_assignment}
use alientek.Defaults.Trim.{EndsSolid, trim_solid}

-- A byte that may stand in the name of a variable.
abbrev pub IsPlain : ℕ → Type 0
IsPlain c = (is_space c ≡ false) × ((c == b'=') ≡ false)

-- A name that a shell assignment can have: not empty, no comment, no blank and no `=`.
abbrev pub IsName : Bytes → Type 0
IsName [] = ⊥
IsName (c ∷ cs) = ((c == b'#') ≡ false) × All IsPlain (c ∷ cs)

strip_last-append : (q : ℕ) (v : Bytes) → strip_last q (v ++ (q ∷ [])) ≡ some v
unfolding strip_last
strip_last-append q [] = rw (==_refl q)
strip_last-append q (c ∷ []) = rw (strip_last-append q [], strip_last)
strip_last-append q (c ∷ d ∷ v) = rw (strip_last-append q (d ∷ v), strip_last)

EndsSolid-append : (s : Bytes) (q : ℕ) → is_space q ≡ false → EndsSolid (s ++ (q ∷ []))
EndsSolid-append [] q h = h
EndsSolid-append (c ∷ []) q h = h
EndsSolid-append (c ∷ d ∷ s) q h = EndsSolid-append (d ∷ s) q h

EndsSolid-plain : (s : Bytes) → All IsPlain s → EndsSolid s
EndsSolid-plain [] h = tt
EndsSolid-plain (c ∷ []) h = h.0.0
EndsSolid-plain (c ∷ d ∷ s) h = EndsSolid-plain (d ∷ s) h.1

no_equals : (s : Bytes) → All IsPlain s → All (λ c. (c == b'=') ≡ false) s
no_equals [] h = tt
no_equals (c ∷ s) h = (h.0.1, no_equals s h.1)

-- A name and its `=` never begin like a text of letters with a blank behind it.
starts_with_plain :
    (k rest p : Bytes)
    → All IsPlain k
    → All IsPlain p
    → starts_with (k ++ (b'=' ∷ rest)) (p ++ (32 ∷ [])) ≡ false
unfolding starts_with is_space
starts_with_plain [] rest [] h g = refl
starts_with_plain [] rest (q ∷ p) h g = ground arith
starts_with_plain (c ∷ k) rest [] h g = ground arith
starts_with_plain (c ∷ k) rest (q ∷ p) h g = ground (arith, starts_with_plain k rest p h.1 g.1)

export-IsPlain : All IsPlain (text "export")
unfolding is_space
export-IsPlain = ground arith

abbrev quoted : ℕ → Bytes → Bytes
quoted q v = q ∷ (v ++ (q ∷ []))

module _ (q : ℕ) (v : Bytes) (is_quote : (q ≡ b'"') ⊎ (q ≡ b'\'')) where
  quote_solid : is_space q ≡ false
  unfolding is_space
  quote_solid = ground arith

  trim-quoted : trim (quoted q v) ≡ quoted q v
  trim-quoted = trim_solid (quoted q v) quote_solid (EndsSolid-append (q ∷ v) q quote_solid)

  unquote-quoted : unquote (quoted q v) ≡ v
  unfolding unquote
  unquote-quoted = ground (arith, strip_last-append q v)

  split_quoted : (k : Bytes) → IsName k → split_assignment (k ++ (b'=' ∷ quoted q v)) ≡ some (k, v)
  unfolding split_assignment
  split_quoted [] n = absurd n
  split_quoted (c ∷ k) n =
      rw (str_chr_stop (c ∷ k) b'=' (quoted q v) (no_equals (c ∷ k) n.1), split_assignment)
        (rw (before_stop (λ x. x == b'=') (c ∷ k) b'=' (quoted q v) (no_equals (c ∷ k) n.1) refl) (
          rw (trim-quoted, unquote-quoted)
            (rw (trim_solid (c ∷ k) n.1.0.0 (EndsSolid-plain (c ∷ k) n.1)))))

  line_solid : (k : Bytes) → EndsSolid (k ++ (b'=' ∷ quoted q v))
  line_solid k =
      let e : (k ++ (b'=' ∷ q ∷ v)) ++ (q ∷ []) ≡ k ++ (b'=' ∷ quoted q v) =
        append_assoc k (b'=' ∷ q ∷ v) (q ∷ []) in
      rw e at (EndsSolid-append (k ++ (b'=' ∷ q ∷ v)) q quote_solid)

  trim_line : (k : Bytes) → IsName k → trim (k ++ (b'=' ∷ quoted q v)) ≡ k ++ (b'=' ∷ quoted q v)
  trim_line [] n = absurd n
  trim_line (c ∷ k) n = trim_solid _ n.1.0.0 (line_solid (c ∷ k))

  drop_export_plain :
      (k : Bytes)
      → All IsPlain k
      → drop_export (k ++ (b'=' ∷ quoted q v)) ≡ k ++ (b'=' ∷ quoted q v)
  unfolding drop_export
  drop_export_plain k h = rw (starts_with_plain k (quoted q v) (text "export") h export-IsPlain)

  parse_plain_quoted :
      (k : Bytes) → IsName k → parse_assignment (k ++ (b'=' ∷ quoted q v)) ≡ some (k, v)
  unfolding parse_assignment
  parse_plain_quoted [] n = absurd n
  parse_plain_quoted (c ∷ k) n =
      rw (trim_line (c ∷ k) n, parse_assignment)
        (rw n.0 (rw (drop_export_plain (c ∷ k) n.1) (split_quoted (c ∷ k) n)))

  parse_export_quoted :
      (k : Bytes)
      → IsName k
      → parse_assignment (text "export " ++ (k ++ (b'=' ∷ quoted q v))) ≡ some (k, v)
  unfolding parse_assignment
  parse_export_quoted k n =
      rw
        (
          trim_solid (text "export " ++ (k ++ (b'=' ∷ quoted q v))) export-IsPlain.0.0
              (EndsSolid_export k n),
          parse_assignment,
        )
        (rw (trim_line k n, drop_export) (split_quoted k n))
    where
      EndsSolid_export :
          (k : Bytes) → IsName k → EndsSolid (text "export " ++ (k ++ (b'=' ∷ quoted q v)))
      EndsSolid_export [] n = absurd n
      EndsSolid_export (c ∷ k) n = line_solid (c ∷ k)

  -- A line KEY='v' or KEY="v", whose key is a name, assigns exactly the text between the quotes to
  -- the key, whatever bytes that text has; so does the line with `export ` in front.
  pub parse_assignment_quoted :
      (k : Bytes)
      → IsName k
      → (parse_assignment (k ++ (b'=' ∷ q ∷ (v ++ (q ∷ [])))) ≡ some (k, v))
        × (parse_assignment (text "export " ++ (k ++ (b'=' ∷ q ∷ (v ++ (q ∷ []))))) ≡ some (k, v))
  parse_assignment_quoted k n = (parse_plain_quoted k n, parse_export_quoted k n)
