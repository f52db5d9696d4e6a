-- ===== src/Daemon/Network/Address.antt =====
-- The text of an address, formatIpv4 of mqtt-agent.cpp.
use alientek.Prelude.{
  ℕ, zero, suc, ◌+◌, ◌/◌, ◌%◌, ◌≤◌, ◌<◌, [], ◌∷◌, ◌≡◌, arith, Bytes, length, length-append,
}
use alientek.State.Int.{digits_from, print_nat}
use alientek.Daemon.Network.{format_ipv4}

digits_from_one :
    (f n : ℕ) (rest : Bytes) → n < 10 → length (digits_from f n rest) ≡ 1 + length rest
unfolding digits_from
digits_from_one zero n rest h = omega arith
digits_from_one (suc f) n rest h = ground arith

digits_from_two :
    (f n : ℕ) (rest : Bytes) → n < 100 → length (digits_from f n rest) ≤ 2 + length rest
unfolding digits_from
digits_from_two zero n rest h = omega arith
digits_from_two (suc f) n rest h =
    ground (arith, digits_from_one f (n / 10) ((b'0' + n % 10) ∷ rest))

digits_from_three :
    (f n : ℕ) (rest : Bytes) → n < 1000 → length (digits_from f n rest) ≤ 3 + length rest
unfolding digits_from
digits_from_three zero n rest h = omega arith
digits_from_three (suc f) n rest h =
    ground (arith, digits_from_two f (n / 10) ((b'0' + n % 10) ∷ rest))

print_nat_short : (n : ℕ) → length (print_nat (n % 256)) ≤ 3
unfolding print_nat
print_nat_short n = digits_from_three (n % 256) (n % 256) [] (omega arith)

-- INET_ADDRSTRLEN is enough.
pub format_ipv4_short : (ip : ℕ) → length (format_ipv4 ip) < 16
unfolding format_ipv4
format_ipv4_short ip = omega (
  arith,
  print_nat_short (ip / 0x1000000),
  print_nat_short (ip / 0x10000),
  print_nat_short (ip / 0x100),
  print_nat_short ip,
  length-append {0},
)
