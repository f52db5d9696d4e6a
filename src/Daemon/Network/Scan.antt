-- ===== src/Daemon/Network/Scan.antt =====
-- The addresses that scanLanForBroker of mqtt-agent.cpp tries.
use mathlib.Core.Path.{subst}
use alientek.Prelude.{
  ℕ, zero, suc, ◌+◌, ◌-◌, ◌≤◌, ◌<◌, Bool, true, false, Bool-cases, leb, ltb, ◌||◌, Option, none,
  some, List, [], ◌∷◌, ◌≡◌, ◌≢◌, ◌⊎◌, inl, inr, refl, sym, ap, ◌∙◌, arith, ◌==◌, Bytes, length,
}
use alientek.World.{World, Event, enoent, probed, put_log}
use alientek.Daemon.{Host}
use alientek.Daemon.Network.{
  or_bits, format_ipv4, probe_tcp_port, found_by, scan_loop, scan_network,
}
use alientek.Daemon.Network.Bits.{
  ones, prefix_mask, floor, and_bits-prefix_mask, or_bits-floor, prefix_mask-ones, ones_32,
  not32-prefix_mask, ones_few,
}
use alientek.Daemon.Network.Address.{format_ipv4_short}

abbrev pub Logged : Event → List Event → Type 0
Logged e [] = ⊥
Logged e (x ∷ log) = (x ≡ e) ⊎ Logged e log

module _ (host : Host) (port self network : ℕ) where
  abbrev address : ℕ → Bytes
  address h = format_ipv4 (or_bits 32 network h)

  -- The address of a host that is not the own one has been tried.
  abbrev Tried : List Event → ℕ → Type 0
  Tried log h = or_bits 32 network h ≢ self → Logged (probed (address h) port 40) log

  abbrev AllTried : List Event → ℕ → ℕ → Type 0
  AllTried log h zero = Unit
  AllTried log h (suc count) = Tried log h × AllTried log (suc h) count

  -- The address of a host that is not the own one has answered in the last attempt.
  abbrev Answers : Option Bytes × World → ℕ → Type 0
  Answers r h =
      (or_bits 32 network h ≢ self)
      × (r.0 ≡ some (address h))
      × (u : World) × (probe_tcp_port host (address h) port 40 u ≡ (true, r.1))

  abbrev Outcome : ℕ → ℕ → Option Bytes × World → Type 0
  Outcome count h r =
      ((r.0 ≡ none) × (r.1.errno ≡ enoent) × AllTried r.1.log h count)
      ⊎ ((x : ℕ) × (h ≤ x) × (x < h + count) × Answers r x)

  abbrev scan : ℕ → ℕ → World → Option Bytes × World
  scan = scan_loop host port 64 self network

  scan-Logged :
      (e : Event) (count h : ℕ) (w : World) → Logged e w.log → Logged e (scan count h w).1.log
  unfolding scan_loop found_by probe_tcp_port
  scan-Logged e zero h w l = l
  scan-Logged e (suc count) h w l =
      let v = put_log (probed (address h) port 40) w in
      ground (arith, scan-Logged e count (suc h) w l, scan-Logged e count (suc h) v (inr l))

  skip_Outcome :
      (count h : ℕ) (r : Option Bytes × World)
      → Tried r.1.log h
      → Outcome count (suc h) r
      → Outcome (suc count) h r
  skip_Outcome count h r t (inl (n, e, a)) = inl (n, e, (t, a))
  skip_Outcome count h r t (inr (x, l, b, a)) = inr (x, omega arith, omega arith, a)

  abbrev probe : ℕ → World → Bool × World
  probe h w = probe_tcp_port host (address h) port 40 w

  abbrev goes_on : ℕ → ℕ → Bool × World → Option Bytes × World
  goes_on count h = found_by host port 64 self network (address h) (scan count (suc h))

  scan_own :
      (count h : ℕ) (w : World)
      → (or_bits 32 network h == self) ≡ true
      → scan (suc count) h w ≡ scan count (suc h) w
  unfolding scan_loop
  scan_own count h w e = rw e refl

  scan_other :
      (count h : ℕ) (w : World)
      → (or_bits 32 network h == self) ≡ false
      → scan (suc count) h w ≡ goes_on count h (probe h w)
  unfolding scan_loop
  scan_other count h w e = rw e refl

  probe_log : (h : ℕ) (w : World) → (probe h w).1.log ≡ probed (address h) port 40 ∷ w.log
  unfolding probe_tcp_port
  probe_log h w = refl

  probe-Logged :
      (h : ℕ) (w v : World) (b : Bool)
      → probe h w ≡ (b, v)
      → Logged (probed (address h) port 40) v.log
  probe-Logged h w v b e =
      subst (Logged (probed (address h) port 40)) (sym (probe_log h w) ∙ ap (λ r. r.1.log) e)
        (inl refl)

  goes_on-Outcome :
      (count h : ℕ) (w : World) (r : Bool × World)
      → or_bits 32 network h ≢ self
      → probe h w ≡ r
      → ((v : World) → Outcome count (suc h) (scan count (suc h) v))
      → Outcome (suc count) h (goes_on count h r)
  unfolding found_by
  goes_on-Outcome count h w (true, v) other e ih =
      let fits : leb 64 (length (address h)) ≡ false =
        ground (arith, format_ipv4_short (or_bits 32 network h)) in
      rw fits (inr (h, omega arith, omega arith, (other, refl, w, e)))
  goes_on-Outcome count h w (false, v) other e ih =
      skip_Outcome count h (scan count (suc h) v)
        (λ o. scan-Logged (probed (address h) port 40) count (suc h) v (probe-Logged h w v false e))
        (ih v)

  scan-Outcome : (count h : ℕ) (w : World) → Outcome count h (scan count h w)
  unfolding scan_loop
  scan-Outcome zero h w = inl (refl, refl, tt)
  scan-Outcome (suc count) h w = elim (Bool-cases (or_bits 32 network h == self)) [
    | inl own ↦ subst (Outcome (suc count) h) (sym (scan_own count h w own)) (
        skip_Outcome count h (scan count (suc h) w) (λ other. absurd (other (ground arith)))
          (scan-Outcome count (suc h) w))
    | inr other ↦ subst (Outcome (suc count) h) (sym (scan_other count h w other)) (
        goes_on-Outcome count h w (probe h w) (λ e. absurd (ground arith)) refl
          (scan-Outcome count (suc h)))
  ]

  AllTried-at :
      (log : List Event) (count h x : ℕ)
      → AllTried log h count
      → h ≤ x
      → x < h + count
      → Tried log x
  AllTried-at log zero h x t l b = absurd (omega arith)
  AllTried-at log (suc count) h x t l b = elim (Bool-cases (x == h)) [
    | inl e ↦ let q : h ≡ x = ground arith in subst (Tried log) q t.0
    | inr e ↦ AllTried-at log count (suc h) x t.1 (ground arith) (omega arith)
  ]

-- A search of the network of `self` with `k` bits for the hosts: it gives a host, not `self`, that
-- answers in the last attempt, or it has tried every host.
abbrev pub Searched : Host → ℕ → ℕ → ℕ → Option Bytes × World → Type 0
Searched host port k self r =
    ((r.0 ≡ none)
      × (r.1.errno ≡ enoent)
      × ((x : ℕ)
          → 1 ≤ x
          → x < ones k
          → floor k self + x ≢ self
          → Logged (probed (format_ipv4 (floor k self + x)) port 40) r.1.log))
    ⊎ ((x : ℕ) × (1 ≤ x)
        × (x < ones k)
        × (floor k self + x ≢ self)
        × (r.0 ≡ some (format_ipv4 (floor k self + x)))
        × (u : World) × (probe_tcp_port host (format_ipv4 (floor k self + x)) port 40 u
            ≡ (true, r.1)))

Outcome-Searched :
    (host : Host) (port k self : ℕ) (r : Option Bytes × World)
    → 1 ≤ ones k
    → k ≤ 32
    → self ≤ ones 32
    → Outcome host port self (floor k self) (ones k - 1) 1 r
    → Searched host port k self r
Outcome-Searched host port k self r a b c (inl (n, e, t)) = inl (
  n,
  e,
  λ x l m o.
      let q = or_bits-floor 32 k self x b c (omega arith) in
      subst (λ y. y ≢ self → Logged (probed (format_ipv4 y) port 40) r.1.log) q
        (AllTried-at host port self (floor k self) r.1.log (ones k - 1) 1 x t l (omega arith)) o,
)
Outcome-Searched host port k self r a b c (inr (x, l, m, t)) =
    let q = or_bits-floor 32 k self x b c (omega arith) in
    let (o, g, u, e) = subst Found q t in inr (x, l, omega arith, o, g, u, e)
  where
    Found : ℕ → Type 0
    Found y =
        (y ≢ self)
        × (r.0 ≡ some (format_ipv4 y))
        × (u : World) × (probe_tcp_port host (format_ipv4 y) port 40 u ≡ (true, r.1))

scan_network-prefix :
    (host : Host) (port k self : ℕ) (w : World)
    → 1 ≤ k
    → k ≤ 16
    → self ≤ ones 32
    → scan_network host port 64 (self, prefix_mask 32 k) w
      ≡ scan_loop host port 64 self (floor k self) (ones k - 1) 1 w
unfolding scan_network
scan_network-prefix host port k self w a b c =
    let few = ones_few k a b in
    let m = prefix_mask-ones 32 k (omega arith) in
    let n = not32-prefix_mask k (omega arith) in
    let z : (prefix_mask 32 k == 0) ≡ false = ground (arith, ones_32) in
    let s : (ones k == 0 || ltb 0xffff (ones k)) ≡ false = ground arith in
    rw (z, n, s, and_bits-prefix_mask 32 k self (omega arith) c) refl

-- With a mask that leaves `k` bits to the hosts, 1 to 16, scanLanForBroker either gives an address
-- that stands in the network of its own address, between the first and the last one, is not its own
-- and has answered in the last attempt; or it fails with ENOENT and has tried every such address.
pub scan_network_complete :
    (host : Host) (port k self : ℕ) (w : World)
    → 1 ≤ k
    → k ≤ 16
    → self ≤ 0xffffffff
    → Searched host port k self (scan_network host port 64 (self, prefix_mask 32 k) w)
scan_network_complete host port k self w a b c =
    let own : self ≤ ones 32 = omega (arith, ones_32) in
    subst (Searched host port k self) (sym (scan_network-prefix host port k self w a b own)) (
      Outcome-Searched host port k self _ (ones_few k a b).0 (omega arith) own
        (scan-Outcome host port self (floor k self) (ones k - 1) 1 w))
