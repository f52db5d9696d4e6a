-- ===== src/Daemon/Network/Bits.antt =====
-- Masks and addresses of 32 bits, for the search of mqtt-agent.cpp.
use alientek.Prelude.{ℕ, zero, suc, ◌+◌, ◌*◌, ◌/◌, ◌%◌, ◌≤◌, ◌≡◌, refl, ◌∙◌, arith}
use alientek.Daemon.Network.{and_bits, or_bits, not32}

-- 2^k - 1
unfoldable pub ones : ℕ → ℕ
ones zero = 0
ones (suc k) = 1 + 2 * ones k

-- The mask of `n` bits with `k` bits for the hosts.
unfoldable pub prefix_mask : ℕ → ℕ → ℕ
unfolding ones
prefix_mask n zero = ones n
prefix_mask zero (suc k) = 0
prefix_mask (suc n) (suc k) = 2 * prefix_mask n k

-- The address `a` with its last `k` bits cleared.
unfoldable pub floor : ℕ → ℕ → ℕ
floor zero a = a
floor (suc k) a = 2 * floor k (a / 2)

and_bits-ones : (n a : ℕ) → a ≤ ones n → and_bits n a (ones n) ≡ a
unfolding and_bits ones
and_bits-ones zero a h = omega arith
and_bits-ones (suc n) a h =
    let e : (1 + 2 * ones n) / 2 ≡ ones n = omega arith in
    let f : (1 + 2 * ones n) % 2 ≡ 1 = omega arith in
    rw (e, f) (omega (arith, and_bits-ones n (a / 2) (omega arith)))

pub and_bits-prefix_mask :
    (n k a : ℕ) → k ≤ n → a ≤ ones n → and_bits n a (prefix_mask n k) ≡ floor k a
unfolding and_bits prefix_mask floor ones
and_bits-prefix_mask n zero a h l = and_bits-ones n a l
and_bits-prefix_mask zero (suc k) a h l = absurd (omega arith)
and_bits-prefix_mask (suc n) (suc k) a h l =
    let e : 2 * prefix_mask n k / 2 ≡ prefix_mask n k = omega arith in
    let f : 2 * prefix_mask n k % 2 ≡ 0 = omega arith in
    rw (e, f) (omega (arith, and_bits-prefix_mask n k (a / 2) (omega arith) (omega arith)))

or_bits-zero : (n a : ℕ) → a ≤ ones n → or_bits n a 0 ≡ a
unfolding or_bits ones
or_bits-zero zero a h = omega arith
or_bits-zero (suc n) a h = omega (arith, or_bits-zero n (a / 2) (omega arith))

floor-le : (k a : ℕ) → floor k a ≤ a
unfolding floor
floor-le zero a = omega arith
floor-le (suc k) a = omega (arith, floor-le k (a / 2))

pub or_bits-floor :
    (n k a h : ℕ) → k ≤ n → a ≤ ones n → h ≤ ones k → or_bits n (floor k a) h ≡ floor k a + h
unfolding or_bits floor ones
or_bits-floor n zero a zero l b c = or_bits-zero n a b ∙ omega arith
or_bits-floor n zero a (suc h) l b c = absurd (omega arith)
or_bits-floor zero (suc k) a h l b c = absurd (omega arith)
or_bits-floor (suc n) (suc k) a h l b c =
    let f = floor k (a / 2) in
    let e : 2 * f / 2 ≡ f = omega arith in
    let g : 2 * f % 2 ≡ 0 = omega arith in
    rw (e, g)
      (omega (arith, or_bits-floor n k (a / 2) (h / 2) (omega arith) (omega arith) (omega arith)))

pub prefix_mask-ones : (n k : ℕ) → k ≤ n → prefix_mask n k + ones k ≡ ones n
unfolding prefix_mask ones
prefix_mask-ones n zero h = omega arith
prefix_mask-ones zero (suc k) h = absurd (omega arith)
prefix_mask-ones (suc n) (suc k) h = omega (arith, prefix_mask-ones n k (omega arith))

pub ones_32 : ones 32 ≡ 0xffffffff
unfolding ones
ones_32 = refl

pub not32-prefix_mask : (k : ℕ) → k ≤ 32 → not32 (prefix_mask 32 k) ≡ ones k
not32-prefix_mask k h = omega (arith, prefix_mask-ones 32 k h, ones_32)

ones-le : (j k : ℕ) → j ≤ k → ones j ≤ ones k
unfolding ones
ones-le zero k h = omega arith
ones-le (suc j) zero h = absurd (omega arith)
ones-le (suc j) (suc k) h = omega (arith, ones-le j k (omega arith))

pub ones_few : (k : ℕ) → 1 ≤ k → k ≤ 16 → (1 ≤ ones k) × (ones k ≤ 0xffff)
unfolding ones
ones_few k a b = (omega (arith, ones-le 1 k a, ones_1), omega (arith, ones-le k 16 b, ones_16))
  where
    ones_1 : ones 1 ≡ 1
    ones_1 = refl

    ones_16 : ones 16 ≡ 0xffff
    ones_16 = refl
