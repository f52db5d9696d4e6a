-- ===== src/Defaults/Load.antt =====
-- otaLoadDefaultFile and the lines of its file.
use alientek.Prelude.{
  ℕ, zero, suc, ◌≤◌, Bool, true, Option, none, some, List, [], ◌∷◌, ◌≡◌, ◌≢◌, refl, ap, ◌∙◌, inl,
  inr, arith, Option-cases, if◌then◌else◌, length, Bytes, str_eq, fgets, read_lines,
}
use alientek.Prelude.CLaws.{str_eq_iff, read_lines-fuel}
use alientek.Defaults.{
  Environment, parse_assignment, apply_default_assignment, load_lines, load_default_file,
}

-- The value of a variable after a line, from its value before.
abbrev pub after_line : Bytes → Option Bytes → Bytes → Option Bytes
after_line k (some old) line = some old
after_line k none line = elim (parse_assignment line) [
  | none ↦ none
  | some (key, value) ↦ if str_eq k key then some value else none
]

abbrev pub after_lines : Bytes → Option Bytes → List Bytes → Option Bytes
after_lines k old [] = old
after_lines k old (line ∷ lines) = after_lines k (after_line k old line) lines

abbrev pub roomy : Bytes → Bytes → Bool
roomy key value = true

-- The line of the file reaches `k` only where `k` is the variable that it assigns.
apply_after :
    (line : Bytes) (env : Environment) (k : Bytes)
    → (apply_default_assignment roomy line env).0 k ≡ after_line k (env k) line
unfolding apply_default_assignment
apply_after line env k = elim (Option-cases (parse_assignment line)) [
  | inl e ↦ ground arith
  | inr ((key, value), e) ↦ ground (arith, str_eq_iff k key)
]

-- The file is read to its end, with any fuel from its length on.
load_lines-after_lines :
    (fuel : ℕ) (file : Bytes) (env : Environment) (k : Bytes)
    → load_lines roomy fuel file env k ≡ after_lines k (env k) (read_lines fuel 512 file)
unfolding load_lines read_lines
load_lines-after_lines zero file env k = refl
load_lines-after_lines (suc fuel) file env k = elim (Option-cases (fgets 512 file)) [
  | inl e ↦ rw (e, load_lines, read_lines)
  | inr ((line, rest), e) ↦
      rw (e, load_lines, read_lines)
        (load_lines-after_lines fuel rest (apply_default_assignment roomy line env).0 k
          ∙ rw (apply_after line env k))
]

-- With memory for every setenv, each variable that was set keeps its value, the empty one too, and
-- any other gets the value of the first line that assigns it. `fuel` is any number of rounds from
-- the length of the file on, so no line is left unread.
pub load_default_file-after_lines :
    (open_file : Bytes → Option Bytes) (path file : Bytes) (env : Environment) (k : Bytes)
    (fuel : ℕ)
    → path ≢ []
    → open_file path ≡ some file
    → length file ≤ fuel
    → load_default_file roomy open_file path env k
      ≡ after_lines k (env k) (read_lines fuel 512 file)
unfolding load_default_file
load_default_file-after_lines open_file [] file env k fuel ne e f = absurd (ne refl)
load_default_file-after_lines open_file (c ∷ path) file env k fuel ne e f =
    rw (e, load_default_file)
      (load_lines-after_lines (length file) file env k
        ∙ ap (after_lines k (env k))
            (read_lines-fuel (length file) fuel 512 file (omega arith) (omega arith) f))

module _ (room : Bytes → Bytes → Bool) (k v : Bytes) where
  apply_keeps :
      (line : Bytes) (env : Environment)
      → env k ≡ some v
      → (apply_default_assignment room line env).0 k ≡ some v
  unfolding apply_default_assignment
  apply_keeps line env h = elim (Option-cases (parse_assignment line)) [
    | inl e ↦ ground arith
    | inr ((key, value), e) ↦ ground (arith, str_eq_iff k key)
  ]

  load_lines_keeps :
      (fuel : ℕ) (file : Bytes) (env : Environment)
      → env k ≡ some v
      → load_lines room fuel file env k ≡ some v
  unfolding load_lines
  load_lines_keeps zero file env h = h
  load_lines_keeps (suc fuel) file env h = elim (Option-cases (fgets 512 file)) [
    | inl e ↦ rw (e, load_lines) h
    | inr ((line, rest), e) ↦
        rw (e, load_lines) (load_lines_keeps fuel rest _ (apply_keeps line env h))
  ]

  -- A variable that is set before the file is read, to the empty text too, has the same value
  -- afterwards, whatever the file holds and whether or not memory runs out.
  pub load_default_file_keeps :
      (open_file : Bytes → Option Bytes) (path : Bytes) (env : Environment)
      → env k ≡ some v
      → load_default_file room open_file path env k ≡ some v
  unfolding load_default_file
  load_default_file_keeps open_file [] env h = h
  load_default_file_keeps open_file (c ∷ path) env h = elim (Option-cases (open_file (c ∷ path))) [
    | inl e ↦ rw (e, load_default_file) h
    | inr (file, e) ↦ rw (e, load_default_file) (load_lines_keeps (length file) file env h)
  ]
