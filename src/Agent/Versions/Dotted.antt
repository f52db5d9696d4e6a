-- ===== src/Agent/Versions/Dotted.antt =====
-- compareVersions on versions that are numbers with dots between them.
use alientek.Prelude.{
  ℕ, zero, suc, ◌+◌, ◌-◌, ◌*◌, ◌≤◌, ◌<◌, ◌%◌, Bool, true, false, Option, some, List, [], ◌∷◌, ◌++◌,
  append-nil, ◌==◌, ltb, if◌then◌else◌, ◌≡◌, refl, sym, ap, ◌∙◌, inl, inr, arith, Bool-cases,
  length, length-append, All, Bytes, is_digit,
}
use alientek.State.Int.{
  print_nat, read_digits, StopsDigits, read_digits-print_nat, digits_from-head, digits_from-append,
}
use alientek.Agent.Versions.{
  Order, less, equal, greater, is_below, number_from, compare_version_token, compare_loop,
  compare_versions,
}

-- A version of numbers with dots between them.
abbrev pub dotted : List ℕ → Bytes
dotted [] = []
dotted (n ∷ []) = print_nat n
dotted (n ∷ m ∷ ns) = print_nat n ++ (b'.' ∷ dotted (m ∷ ns))

-- The order of the numbers from the first on, with 0 for those that a list does not have.
abbrev pub compare_numbers : List ℕ → List ℕ → Order
compare_numbers [] [] = equal
compare_numbers [] (y ∷ ys) = if 0 == y then compare_numbers [] ys else less
compare_numbers (x ∷ xs) [] = if x == 0 then compare_numbers xs [] else greater
compare_numbers (x ∷ xs) (y ∷ ys) =
    if x == y then compare_numbers xs ys else if ltb x y then less else greater

abbrev skip_dot : Bytes → Bytes
skip_dot [] = []
skip_dot (c ∷ s) = if c == b'.' then s else c ∷ s

-- A number that an int holds.
abbrev pub IsIntNat : ℕ → Type 0
IsIntNat n = n < 0x8000_0000

is_below_small : (x y : ℕ) → IsIntNat x → IsIntNat y → is_below x y ≡ ltb x y
unfolding is_below
is_below_small x y h k =
    ap (λ a. ltb a ((y + 0x8000_0000) % 0x1_0000_0000)) (shifted x h)
    ∙ (ap (λ b. ltb (x + 0x8000_0000) b) (shifted y k) ∙ ground arith)
  where
    shifted : (n : ℕ) → IsIntNat n → (n + 0x8000_0000) % 0x1_0000_0000 ≡ n + 0x8000_0000
    shifted n h = omega arith

read_digits-le : (value : ℕ) (s : Bytes) → value ≤ (read_digits value s).0
unfolding read_digits
read_digits-le value [] = omega arith
read_digits-le value (c ∷ s) = ground (arith, read_digits-le (10 * value + (c - b'0')) s)

number_from-read_digits :
    (value : ℕ) (s : Bytes)
    → IsIntNat (read_digits value s).0
    → number_from value s ≡ ((read_digits value s).0, skip_dot (read_digits value s).1)
unfolding number_from read_digits
number_from-read_digits value [] b = refl
number_from-read_digits value (c ∷ s) b = elim (Bool-cases (is_digit c)) [
  | inl t ↦
      let next = 10 * value + (c - b'0') in
      let k : IsIntNat (read_digits next s).0 = rw (t, read_digits) at b in
      let e : (value * 10 + (c - b'0')) % 0x1_0000_0000 ≡ next =
        omega (arith, k, read_digits-le next s) in
      rw (t, number_from, read_digits)
        (ap (λ v. number_from v s) e ∙ number_from-read_digits next s k)
  | inr t ↦ rw (t, number_from, read_digits) (ground arith)
]

dot_no_digit : is_digit b'.' ≡ false
unfolding is_digit
dot_no_digit = refl

token-print_nat :
    (n : ℕ) (s : Bytes)
    → IsIntNat n
    → StopsDigits s
    → compare_version_token (print_nat n ++ s) ≡ (n, skip_dot s)
unfolding compare_version_token
token-print_nat n s b h =
    number_from-read_digits 0 (print_nat n ++ s)
      (omega (arith, ap (λ (r : ℕ × Bytes). r.0) (read_digits-print_nat n s h), b))
    ∙ ap (λ (r : ℕ × Bytes). (r.0, skip_dot r.1)) (read_digits-print_nat n s h)

token-dotted :
    (n : ℕ) (ns : List ℕ) → IsIntNat n → compare_version_token (dotted (n ∷ ns)) ≡ (n, dotted ns)
token-dotted n [] b =
    ap compare_version_token (sym (append-nil (print_nat n))) ∙ token-print_nat n [] b tt
token-dotted n (m ∷ ns) b = token-print_nat n (b'.' ∷ dotted (m ∷ ns)) b dot_no_digit

print_nat-head : (n : ℕ) (s : Bytes) → (c : ℕ) × (t : Bytes) × (print_nat n ++ s ≡ c ∷ t)
unfolding print_nat
print_nat-head n s =
    let (c, t, e, d) = digits_from-head n n s in (c, t, digits_from-append n n [] s ∙ e)

dotted-head : (n : ℕ) (ns : List ℕ) → (c : ℕ) × (t : Bytes) × (dotted (n ∷ ns) ≡ c ∷ t)
dotted-head n [] = let (c, t, e) = print_nat-head n [] in (c, t, sym (append-nil (print_nat n)) ∙ e)
dotted-head n (m ∷ ns) = print_nat-head n (b'.' ∷ dotted (m ∷ ns))

-- One round of the loop, by the numbers that it takes off.
round_left :
    (fuel : ℕ) (l r : Bytes) {c : ℕ} {t : Bytes} {x : ℕ} {l' : Bytes} {y : ℕ} {r' : Bytes}
    → l ≡ c ∷ t
    → compare_version_token l ≡ (x, l')
    → compare_version_token r ≡ (y, r')
    → compare_loop (suc fuel) l r
      ≡ (if x == y then compare_loop fuel l' r' else some (if is_below x y then less else greater))
unfolding compare_loop
round_left fuel l r e a b = rw e (rw (rw e at a) (rw b))

round_right :
    (fuel : ℕ) (r : Bytes) {c : ℕ} {t : Bytes} {y : ℕ} {r' : Bytes}
    → r ≡ c ∷ t
    → compare_version_token r ≡ (y, r')
    → compare_loop (suc fuel) [] r
      ≡ (if 0 == y then compare_loop fuel [] r' else some (if is_below 0 y then less else greater))
unfolding compare_loop
round_right fuel r e b = rw e (rw (rw e at b))

token-nil : compare_version_token [] ≡ (0, [])
unfolding compare_version_token number_from
token-nil = refl

-- A choice under a result.
some_if :
    (b : Bool) (o : Order) {m : Option Order} {n : Order}
    → m ≡ some n
    → (if b then m else some o) ≡ some (if b then n else o)
some_if true o h = h
some_if false o h = refl

compare_loop-dotted :
    (fuel : ℕ) (xs ys : List ℕ)
    → All IsIntNat xs
    → All IsIntNat ys
    → length xs + length ys < fuel
    → compare_loop fuel (dotted xs) (dotted ys) ≡ some (compare_numbers xs ys)
compare_loop-dotted zero xs ys a b f = absurd (omega arith)
compare_loop-dotted (suc fuel) [] [] a b f = nil_equal
  where
    nil_equal : compare_loop (suc fuel) [] [] ≡ some equal
    nil_equal = unfold compare_loop in refl
compare_loop-dotted (suc fuel) (x ∷ xs) [] a b f =
    let (c, t, e) = dotted-head x xs in
    round_left fuel (dotted (x ∷ xs)) [] e (token-dotted x xs a.0) token-nil
    ∙ (some_if (x == 0) (if is_below x 0 then less else greater)
          (compare_loop-dotted fuel xs [] a.1 tt (omega arith))
        ∙ ground (arith, is_below_small x 0 a.0 (omega arith)))
compare_loop-dotted (suc fuel) [] (y ∷ ys) a b f =
    let (c, t, e) = dotted-head y ys in
    round_right fuel (dotted (y ∷ ys)) e (token-dotted y ys b.0)
    ∙ (some_if (0 == y) (if is_below 0 y then less else greater)
          (compare_loop-dotted fuel [] ys tt b.1 (omega arith))
        ∙ ground (arith, is_below_small 0 y (omega arith) b.0))
compare_loop-dotted (suc fuel) (x ∷ xs) (y ∷ ys) a b f =
    let (c, t, e) = dotted-head x xs in
    round_left fuel (dotted (x ∷ xs)) (dotted (y ∷ ys)) e (token-dotted x xs a.0)
      (token-dotted y ys b.0)
    ∙ (some_if (x == y) (if is_below x y then less else greater)
          (compare_loop-dotted fuel xs ys a.1 b.1 (omega arith))
        ∙ ground (arith, is_below_small x y a.0 b.0))

length-dotted : (ns : List ℕ) → length ns ≤ length (dotted ns)
length-dotted [] = omega arith
length-dotted (n ∷ []) = let (c, t, e) = dotted-head n [] in omega (arith, ap (length {A = ℕ}) e)
length-dotted (n ∷ m ∷ ns) =
    omega (arith, length-append (print_nat n) (b'.' ∷ dotted (m ∷ ns)), length-dotted (m ∷ ns))

-- Versions of numbers that an int holds, with dots between them, are compared, in the rounds that
-- compareVersions makes, as the lists of their numbers: the first number that differs decides, and a
-- missing number is 0.
pub compare_versions-dotted :
    (xs ys : List ℕ)
    → All IsIntNat xs
    → All IsIntNat ys
    → compare_versions (dotted xs) (dotted ys) ≡ some (compare_numbers xs ys)
unfolding compare_versions
compare_versions-dotted xs ys a b =
    compare_loop-dotted (suc (length (dotted xs) + length (dotted ys))) xs ys a b
      (omega (arith, length-dotted xs, length-dotted ys))
