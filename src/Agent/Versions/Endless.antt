-- ===== src/Agent/Versions/Endless.antt =====
-- The rounds of compareVersions on any two texts.
use alientek.Prelude.{
  ℕ, zero, suc, ◌+◌, ◌-◌, ◌*◌, ◌%◌, ◌≤◌, ◌<◌, none, some, [], ◌∷◌, ◌==◌, if◌then◌else◌, ◌≡◌, refl,
  sym, ap, ◌∙◌, ◌⊎◌, inl, inr, arith, Bool-cases, length, Bytes, is_digit,
}
use mathlib.Core.Option.{none-ne-some}
use alientek.Agent.Versions.{
  Order, equal, number_from, compare_version_token, compare_loop, compare_versions,
}

number_from-le : (value : ℕ) (s : Bytes) → length (number_from value s).1 ≤ length s
unfolding number_from
number_from-le value [] = omega arith
number_from-le value (c ∷ s) =
    ground (arith, number_from-le ((value * 10 + (c - b'0')) % 0x1_0000_0000) s)

-- A number takes bytes off, or leaves the text as it is.
token_moves :
    (s : Bytes)
    → ((compare_version_token s).1 ≡ s) ⊎ (length (compare_version_token s).1 < length s)
unfolding compare_version_token number_from
token_moves [] = inl refl
token_moves (c ∷ s) = elim (Bool-cases (is_digit c)) [
  | inl t ↦
      rw (t, number_from)
        (inr (omega (arith, number_from-le ((0 * 10 + (c - b'0')) % 0x1_0000_0000) s)))
  | inr t ↦ elim (Bool-cases (c == b'.')) [
    | inl d ↦ rw (t, d, number_from) (inr (omega arith))
    | inr d ↦ rw (t, d, number_from) (inl refl)
  ]
]

token-le : (s : Bytes) → length (compare_version_token s).1 ≤ length s
unfolding compare_version_token
token-le s = number_from-le 0 s

-- The round of the loop on two texts that are not both at their end.
abbrev Rounds : Bytes → Bytes → Order → Type 0
Rounds l r o =
    (fuel : ℕ)
    → compare_loop (suc fuel) l r ≡ (
        if (compare_version_token l).0 == (compare_version_token r).0
        then compare_loop fuel (compare_version_token l).1 (compare_version_token r).1
        else some o)

loop_round : (l r : Bytes) → ((l ≡ []) × (r ≡ [])) ⊎ ((o : Order) × Rounds l r o)
unfolding compare_loop compare_version_token number_from
loop_round [] [] = inl (refl, refl)
loop_round (c ∷ l) r = inr (_, λ fuel. refl)
loop_round [] (d ∷ r) = inr (_, λ fuel. refl)

stays_endless :
    (l r : Bytes)
    → ((fuel : ℕ) → compare_loop (suc fuel) l r ≡ compare_loop fuel l r)
    → (g : ℕ) → compare_loop g l r ≡ none
unfolding compare_loop
stays_endless l r q zero = refl
stays_endless l r q (suc g) = q g ∙ stays_endless l r q g

nil_ends : (fuel : ℕ) → compare_loop (suc fuel) [] [] ≡ some equal
unfolding compare_loop
nil_ends fuel = refl

next_endless :
    (l r l' r' : Bytes)
    → ((fuel : ℕ) → compare_loop (suc fuel) l r ≡ compare_loop fuel l' r')
    → ((fuel : ℕ) → compare_loop fuel l' r' ≡ none)
    → (g : ℕ) → compare_loop g l r ≡ none
unfolding compare_loop
next_endless l r l' r' q h zero = refl
next_endless l r l' r' q h (suc g) = q g ∙ h g

compare_loop-none :
    (f : ℕ) (l r : Bytes)
    → length l + length r < f
    → compare_loop f l r ≡ none
    → (g : ℕ) → compare_loop g l r ≡ none
compare_loop-none zero l r b h = absurd (omega arith)
compare_loop-none (suc f) l r b h = elim (loop_round l r) [
  | inl (p, q) ↦ absurd (
      none-ne-some equal (
        sym h ∙ ap (λ z. compare_loop (suc f) z r) p ∙ ap (compare_loop (suc f) []) q ∙ nil_ends f))
  | inr (o, q) ↦
      let l' : Bytes = (compare_version_token l).1 in
      let r' : Bytes = (compare_version_token r).1 in
      elim (Bool-cases ((compare_version_token l).0 == (compare_version_token r).0)) [
        | inr ne ↦ absurd (none-ne-some o (sym h ∙ (rw ne at (q f))))
        | inl eq ↦
            let step : (k : ℕ) → compare_loop (suc k) l r ≡ compare_loop k l' r' =
              λ k. rw eq at (q k) in
            let rest : compare_loop f l' r' ≡ none = sym (step f) ∙ h in
            elim (token_moves l) [
              | inr s ↦
                  next_endless l r l' r' step
                    (compare_loop-none f l' r' (omega (arith, token-le r)) rest)
              | inl same_l ↦ elim (token_moves r) [
                | inr s ↦
                    next_endless l r l' r' step
                      (compare_loop-none f l' r' (omega (arith, token-le l)) rest)
                | inl same_r ↦ stays_endless l r (λ k.
                    step k ∙ ap (λ z. compare_loop k z r') same_l ∙ ap (compare_loop k l) same_r)
              ]
            ]
      ]
]

-- If the model gives no result for two versions, then no number of rounds gives one: the loop of
-- compareVersions does not end on them.
pub compare_versions-none :
    (l r : Bytes) → compare_versions l r ≡ none → (fuel : ℕ) → compare_loop fuel l r ≡ none
unfolding compare_versions
compare_versions-none l r = compare_loop-none (suc (length l + length r)) l r (omega arith)
