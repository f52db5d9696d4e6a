-- ===== src/Prelude/CLaws.antt =====
-- Laws of the libc functions in CString.
use Prim.Native.Nat.{ℕ, zero, suc, ◌+◌, ◌-◌, ◌≤◌, ◌<◌}
use mathlib.Core.Path.{◌≡◌, refl, ap, ◌∙◌, sym}
use mathlib.Core.Logic.{◌↔◌, inl, inr}
use mathlib.Core.Bool.{Bool, true, false}
use mathlib.Core.List.{[], ◌∷◌, ◌++◌}
use mathlib.Core.Option.{none, some, none-ne-some, some-injective}
use native.Mathlib.Omega.{arith}
use alientek.Prelude.Tests.{◌==◌, ==_refl, Option-cases, Bool-cases}
use alientek.Prelude.Lists.{take, length, drop, All}
use alientek.Prelude.CString.{
  Bytes, str_eq, starts_with, str_chr, str_case_str, starts_with_case, skip_while, before,
  fgets_take, fgets, read_lines, c_str,
}

pub str_eq_iff : (a b : Bytes) → (str_eq a b ≡ true) ↔ (a ≡ b)
unfolding str_eq
str_eq_iff (x ∷ a) (y ∷ b) = ground (arith, str_eq_iff a b)
str_eq_iff _ _ = ground arith

pub str_eq_refl : (a : Bytes) → str_eq a a ≡ true
str_eq_refl a = (str_eq_iff a a).1 refl

pub starts_with-append : (p s : Bytes) → starts_with (p ++ s) p ≡ true
unfolding starts_with
starts_with-append [] [] = refl
starts_with-append [] (c ∷ s) = refl
starts_with-append (c ∷ p) s = rw (==_refl c) (starts_with-append p s)

pub before_stop :
    (p : ℕ → Bool) (s : Bytes) (c : ℕ) (rest : Bytes)
    → All (λ x. p x ≡ false) s
    → p c ≡ true
    → before p (s ++ (c ∷ rest)) ≡ s
unfolding before
before_stop p [] c rest h k = rw k
before_stop p (x ∷ s) c rest h k = rw h.0 (ap (◌∷◌ x) (before_stop p s c rest h.1 k))

pub before-All : (p : ℕ → Bool) (s : Bytes) → All (λ x. p x ≡ false) s → before p s ≡ s
unfolding before
before-All p [] h = refl
before-All p (x ∷ s) h = rw h.0 (ap (◌∷◌ x) (before-All p s h.1))

pub str_chr_stop :
    (s : Bytes) (c : ℕ) (rest : Bytes)
    → All (λ x. (x == c) ≡ false) s
    → str_chr (s ++ (c ∷ rest)) c ≡ some (c ∷ rest)
unfolding str_chr
str_chr_stop [] c rest h = rw (==_refl c)
str_chr_stop (x ∷ s) c rest h = rw h.0 (str_chr_stop s c rest h.1)

-- The rest of a file after a line is shorter than the file was.
fgets_take_shrinks : (n : ℕ) (s : Bytes) → length (fgets_take n s).1 ≤ length s
unfolding fgets_take
fgets_take_shrinks zero s = omega arith
fgets_take_shrinks (suc n) [] = omega arith
fgets_take_shrinks (suc n) (c ∷ s) = ground (arith, fgets_take_shrinks n s)

fgets_take-suc_shrinks : (n c : ℕ) (s : Bytes) → length (fgets_take (suc n) (c ∷ s)).1 ≤ length s
unfolding fgets_take
fgets_take-suc_shrinks n c s = ground (arith, fgets_take_shrinks n s)

fgets-cons :
    (size c : ℕ) (s : Bytes)
    → fgets size (c ∷ s)
      ≡ some (c_str (fgets_take (size - 1) (c ∷ s)).0, (fgets_take (size - 1) (c ∷ s)).1)
unfolding fgets
fgets-cons size c s = refl

pub fgets-nil : (size : ℕ) → fgets size [] ≡ none
unfolding fgets
fgets-nil size = refl

pub fgets_shrinks :
    (size : ℕ) (s : Bytes) {line rest : Bytes}
    → 2 ≤ size
    → fgets size s ≡ some (line, rest)
    → length rest < length s
fgets_shrinks size [] b h = absurd (none-ne-some _ (sym (fgets-nil size) ∙ h))
fgets_shrinks size (c ∷ s) {line} {rest} b h =
    let e : size - 1 ≡ suc (size - 2) = omega arith in
    let p : (fgets_take (size - 1) (c ∷ s)).1 ≡ rest =
      ap (λ (q : Bytes × Bytes). q.1) (some-injective _ _ (sym (fgets-cons size c s) ∙ h)) in
    omega (arith, rw (← e) at (fgets_take-suc_shrinks (size - 2) c s), ap (length {A = ℕ}) p)

-- Fuel beyond the length of the file makes no difference.
pub read_lines-fuel :
    (f g size : ℕ) (s : Bytes)
    → 2 ≤ size
    → length s ≤ f
    → length s ≤ g
    → read_lines f size s ≡ read_lines g size s
unfolding read_lines
read_lines-fuel zero zero size s b hf hg = refl
read_lines-fuel zero (suc g) size [] b hf hg = rw (fgets-nil, read_lines)
read_lines-fuel zero (suc g) size (c ∷ s) b hf hg = absurd (omega arith)
read_lines-fuel (suc f) zero size [] b hf hg = rw (fgets-nil, read_lines)
read_lines-fuel (suc f) zero size (c ∷ s) b hf hg = absurd (omega arith)
read_lines-fuel (suc f) (suc g) size s b hf hg = elim (Option-cases (fgets size s)) [
  | inl e ↦ rw (e, read_lines)
  | inr ((line, rest), e) ↦
      let m = fgets_shrinks size s b e in
      rw (e, read_lines)
        (ap (◌∷◌ line) (read_lines-fuel f g size rest b (omega arith) (omega arith)))
]

-- A byte that stands inside a line of a text file.
abbrev pub IsInLine : ℕ → Type 0
IsInLine c = ((c == b'\n') ≡ false) × ((c == 0) ≡ false)

fgets_take_line :
    (n : ℕ) (l rest : Bytes)
    → All IsInLine l
    → length l < n
    → fgets_take n (l ++ (b'\n' ∷ rest)) ≡ (l ++ (b'\n' ∷ []), rest)
unfolding fgets_take
fgets_take_line zero l rest h b = absurd (omega arith)
fgets_take_line (suc n) [] rest h b = refl
fgets_take_line (suc n) (c ∷ l) rest h b =
    rw h.0.0
      (ap (λ (r : Bytes × Bytes). (c ∷ r.0, r.1)) (fgets_take_line n l rest h.1 (omega arith)))

c_str_line : (l : Bytes) → All IsInLine l → c_str (l ++ (b'\n' ∷ [])) ≡ l ++ (b'\n' ∷ [])
unfolding c_str before
c_str_line [] h = refl
c_str_line (c ∷ l) h = rw h.0.1 (ap (◌∷◌ c) (c_str_line l h.1))

-- A line that fits the buffer is read whole.
pub fgets_line :
    (size : ℕ) (l rest : Bytes)
    → All IsInLine l
    → length l + 1 < size
    → fgets size (l ++ (b'\n' ∷ rest)) ≡ some (l ++ (b'\n' ∷ []), rest)
fgets_line size [] rest h b =
    fgets-cons size b'\n' rest
    ∙ rw (fgets_take_line (size - 1) [] rest h (omega arith), c_str_line [] h)
fgets_line size (c ∷ l) rest h b =
    fgets-cons size c (l ++ (b'\n' ∷ rest))
    ∙ rw (fgets_take_line (size - 1) (c ∷ l) rest h (omega arith), c_str_line (c ∷ l) h)

-- What a search or a skip leaves is no longer than what it was given.
pub str_chr_shrinks : (s : Bytes) (c : ℕ) {t : Bytes} → str_chr s c ≡ some t → length t ≤ length s
unfolding str_chr
str_chr_shrinks [] c h = absurd (none-ne-some _ h)
str_chr_shrinks (x ∷ s) c {t} h = elim (Bool-cases (x == c)) [
  | inl e ↦ omega (arith, ap (length {A = ℕ}) (some-injective _ _ (rw e at h)))
  | inr e ↦ omega (arith, str_chr_shrinks s c (rw e at h))
]

pub skip_while_shrinks : (p : ℕ → Bool) (s : Bytes) → length (skip_while p s) ≤ length s
unfolding skip_while
skip_while_shrinks p [] = omega arith
skip_while_shrinks p (x ∷ s) = ground (arith, skip_while_shrinks p s)

pub length-drop-le : (n : ℕ) (s : Bytes) → length (drop n s) ≤ length s
length-drop-le zero s = omega arith
length-drop-le (suc n) [] = omega arith
length-drop-le (suc n) (x ∷ s) = omega (arith, length-drop-le n s)

-- A step over the first bytes of a match makes the rest shorter.
pub str_case_str_shrinks :
    (s : Bytes) (c : ℕ) (pat : Bytes) (n : ℕ) {k : Bytes}
    → str_case_str s (c ∷ pat) ≡ some k
    → length (drop (suc n) k) < length s
unfolding str_case_str starts_with_case
str_case_str_shrinks [] c pat n h = absurd (none-ne-some _ h)
str_case_str_shrinks (x ∷ s) c pat n {k} h =
    elim (Bool-cases (starts_with_case (x ∷ s) (c ∷ pat))) [
      | inl e ↦ omega (
        arith,
        ap (λ (t : Bytes). length (drop (suc n) t)) (some-injective _ _ (rw e at h)),
        length-drop-le n s,
      )
      | inr e ↦ omega (arith, str_case_str_shrinks s c pat n (rw e at h))
    ]

-- A text behind another one is what stands behind its length.
pub take_append : (xs ys : Bytes) → take (length xs) (xs ++ ys) ≡ xs
take_append [] ys = refl
take_append (x ∷ xs) ys = ap (◌∷◌ x) (take_append xs ys)

pub drop_append : (xs ys : Bytes) → drop (length xs) (xs ++ ys) ≡ ys
drop_append [] ys = refl
drop_append (x ∷ xs) ys = drop_append xs ys

pub take-drop : (n : ℕ) (s : Bytes) → s ≡ take n s ++ drop n s
take-drop zero s = refl
take-drop (suc n) [] = refl
take-drop (suc n) (c ∷ s) = ap (◌∷◌ c) (take-drop n s)

-- A text that starts with another is this and what is behind it.
pub starts_with-split :
    (s token : Bytes) → starts_with s token ≡ true → s ≡ token ++ drop (length token) s
unfolding starts_with
starts_with-split s [] h = drop_none s
  where
    drop_none : (s : Bytes) → s ≡ drop 0 s
    drop_none [] = refl
    drop_none (c ∷ s) = refl
starts_with-split [] (p ∷ token) h = absurd (ground (arith, h))
starts_with-split (c ∷ s) (p ∷ token) h =
    let e : c ≡ p = ground (arith, h) in
    let g : starts_with s token ≡ true = ground (arith, h) in
    ap (λ z. z ∷ s) e ∙ ap (λ z. p ∷ z) (starts_with-split s token g)
