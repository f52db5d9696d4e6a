-- ===== src/Agent/Versions.antt =====
-- compareVersions of ota-agent.cpp. An int is its pattern of 32 bits: a number that does not fit, for which
-- C leaves the result open, wraps around as in two's complement.
pub mod Dotted
pub mod Endless
use alientek.Prelude.{
  ℕ, zero, suc, ◌+◌, ◌-◌, ◌*◌, ◌≤◌, ◌<◌, ◌%◌, Bool, true, false, ◌||◌, Option, none, some, [], ◌∷◌,
  ◌==◌, ltb, if◌then◌else◌, ◌≡◌, refl, inl, inr, arith, Bool-cases, length, All, Bytes, is_digit,
}

-- Lines 256 to 262: the number, and the text behind it and its dot.
unfoldable pub number_from : ℕ → Bytes → ℕ × Bytes
unfolding is_digit
number_from value [] = (value, [])
number_from value (c ∷ s) =
    let more = number_from ((value * 10 + (c - b'0')) % 0x1_0000_0000) s in
    if is_digit c then more else if c == b'.' then (value, s) else (value, c ∷ s)

-- compareVersionToken
unfoldable pub compare_version_token : Bytes → ℕ × Bytes
unfolding number_from
compare_version_token = number_from 0

-- The order of two ints, by their patterns.
unfoldable pub is_below : ℕ → ℕ → Bool
is_below x y = ltb ((x + 0x8000_0000) % 0x1_0000_0000) ((y + 0x8000_0000) % 0x1_0000_0000)

-- -1, 0 and 1
pub data Order : Type 0 where
  less equal greater : Order

-- The loop of compareVersions, on fuel; `none` is a loop that has not ended.
unfoldable pub compare_loop : ℕ → Bytes → Bytes → Option Order
compare_loop zero l r = none
compare_loop (suc fuel) [] [] = some equal
compare_loop (suc fuel) (c ∷ l) r =
    let (x, l') = compare_version_token (c ∷ l) in
    let (y, r') = compare_version_token r in
    let rest = compare_loop fuel l' r' in
    if x == y then rest else some (if is_below x y then less else greater)
compare_loop (suc fuel) [] (d ∷ r) =
    let (y, r') = compare_version_token (d ∷ r) in
    let rest = compare_loop fuel [] r' in
    if 0 == y then rest else some (if is_below 0 y then less else greater)

-- compareVersions. A round that takes no byte off is repeated for ever, so a loop that ends takes at
-- most as many rounds as both texts have bytes, and one more.
unfoldable pub compare_versions : Bytes → Bytes → Option Order
compare_versions l r = compare_loop (suc (length l + length r)) l r

-- A byte of a version that has numbers and dots only.
abbrev pub IsVersionByte : ℕ → Type 0
IsVersionByte c = (is_digit c || c == b'.') ≡ true

-- What is left behind a number is a version too, and no longer.
number_from_version :
    (value : ℕ) (s : Bytes)
    → All IsVersionByte s
    → (length (number_from value s).1 ≤ length s) × All IsVersionByte (number_from value s).1
unfolding number_from
number_from_version value [] h = (omega arith, tt)
number_from_version value (c ∷ s) h = elim (Bool-cases (is_digit c)) [
  | inl t ↦
      let (a, b) = number_from_version ((value * 10 + (c - b'0')) % 0x1_0000_0000) s h.1 in
      rw (t, number_from) (omega arith, b)
  | inr t ↦ elim (Bool-cases (c == b'.')) [
    | inl d ↦ rw (t, d, number_from) (omega arith, h.1)
    | inr d ↦ absurd (ground arith)
  ]
]

token_version :
    (s : Bytes)
    → All IsVersionByte s
    → (length (compare_version_token s).1 ≤ length s)
      × All IsVersionByte (compare_version_token s).1
unfolding compare_version_token
token_version = number_from_version 0

-- A number that begins with a byte takes one off at least.
pub token_shrinks :
    (c : ℕ) (s : Bytes)
    → All IsVersionByte (c ∷ s)
    → length (compare_version_token (c ∷ s)).1 ≤ length s
unfolding compare_version_token number_from
token_shrinks c s h = elim (Bool-cases (is_digit c)) [
  | inl t ↦ rw (t, number_from) (number_from_version ((0 + (c - b'0')) % 0x1_0000_0000) s h.1).0
  | inr t ↦ elim (Bool-cases (c == b'.')) [
    | inl d ↦ rw (t, d, number_from) (omega arith)
    | inr d ↦ absurd (ground arith)
  ]
]

Ends : Option Order → Type 0
Ends m = (o : Order) × (m ≡ some o)

decided :
    (x y : ℕ) (rest : Option Order) (o : Order) → Ends rest → Ends (if x == y then rest else some o)
unfolding Ends
decided x y rest o h = elim (Bool-cases (x == y)) [ inl e ↦ rw e h | inr e ↦ rw e (o, refl) ]

-- On versions of numbers and dots, the loop ends, with any fuel above the length of both.
compare_loop-Ends :
    (fuel : ℕ) (l r : Bytes)
    → All IsVersionByte l
    → All IsVersionByte r
    → length l + length r < fuel
    → Ends (compare_loop fuel l r)
unfolding compare_loop Ends
compare_loop-Ends zero l r hl hr f = absurd (omega arith)
compare_loop-Ends (suc fuel) [] [] hl hr f = (equal, refl)
compare_loop-Ends (suc fuel) (c ∷ l) r hl hr f =
    let a = token_shrinks c l hl in
    let (b, vr) = token_version r hr in
    decided _ _ _ _ (compare_loop-Ends fuel _ _ (token_version (c ∷ l) hl).1 vr (omega arith))
compare_loop-Ends (suc fuel) [] (d ∷ r) hl hr f =
    let a = token_shrinks d r hr in
    decided _ _ _ _ (compare_loop-Ends fuel [] _ tt (token_version (d ∷ r) hr).1 (omega arith))

-- Two versions of numbers and dots are compared in finitely many rounds.
pub compare_versions_ends :
    (l r : Bytes)
    → All IsVersionByte l
    → All IsVersionByte r
    → (o : Order) × (compare_versions l r ≡ some o)
unfolding compare_versions Ends
compare_versions_ends l r hl hr =
    compare_loop-Ends (suc (length l + length r)) l r hl hr (omega arith)

token_stuck :
    (c : ℕ) (s : Bytes)
    → is_digit c ≡ false
    → (c == b'.') ≡ false
    → compare_version_token (c ∷ s) ≡ (0, c ∷ s)
unfolding compare_version_token number_from
token_stuck c s h k = rw (h, number_from) (rw (k, number_from))

-- Where both versions go on with a byte that is neither a digit nor a dot, as 1.0-rc1 and 1.0-rc2 do
-- behind their numbers, the loop never ends: no fuel is enough.
pub compare_loop_stuck :
    (fuel c d : ℕ) (l r : Bytes)
    → is_digit c ≡ false
    → (c == b'.') ≡ false
    → is_digit d ≡ false
    → (d == b'.') ≡ false
    → compare_loop fuel (c ∷ l) (d ∷ r) ≡ none
unfolding compare_loop
compare_loop_stuck zero c d l r h k i j = refl
compare_loop_stuck (suc fuel) c d l r h k i j =
    rw (token_stuck c l h k) (rw (token_stuck d r i j) (compare_loop_stuck fuel c d l r h k i j))
