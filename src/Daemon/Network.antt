-- ===== src/Daemon/Network.antt =====
-- mqtt-agent.cpp, lines 116 to 243: the search for a broker in the network of an interface. The
-- values of type uint32_t are natural numbers below 2^32, in host order.
pub mod Bits
pub mod Address
pub mod Scan
use alientek.Prelude.{
  ℕ, zero, suc, ◌+◌, ◌-◌, ◌*◌, ◌/◌, ◌%◌, max, Bool, true, false, not, ◌&&◌, ◌||◌, Option, none,
  some, List, [], ◌∷◌, ◌++◌, ◌==◌, ltb, leb, if◌then◌else◌, Bytes, length, text, str_eq,
}
use alientek.World.{World, Errno, enoent, erange, probed, put_log, set_errno}
use alientek.Defaults.{Environment, read_path_setting}
use alientek.State.Int.{print_nat}
use alientek.Daemon.{Host, Interface}

-- a & b and a | b on `n` bits
unfoldable pub and_bits : ℕ → ℕ → ℕ → ℕ
and_bits zero a b = 0
and_bits (suc n) a b = (a % 2) * (b % 2) + 2 * and_bits n (a / 2) (b / 2)

unfoldable pub or_bits : ℕ → ℕ → ℕ → ℕ
or_bits zero a b = 0
or_bits (suc n) a b = max (a % 2) (b % 2) + 2 * or_bits n (a / 2) (b / 2)

-- ~a on 32 bits
abbrev pub not32 : ℕ → ℕ
not32 a = 0xffffffff - a

-- formatIpv4: the text of inet_ntop, which has at most 15 bytes
unfoldable pub format_ipv4 : ℕ → Bytes
unfolding print_nat
format_ipv4 ip =
    print_nat (ip / 0x1000000 % 256)
    ++ (text "."
        ++ (print_nat (ip / 0x10000 % 256)
            ++ (text "." ++ (print_nat (ip / 0x100 % 256) ++ (text "." ++ print_nat (ip % 256))))))

-- The loop of readIfaceIpv4.
unfoldable pub find_interface : Bytes → List Interface → Option (ℕ × ℕ)
find_interface name [] = none
find_interface name (i ∷ rest) =
    let found = find_interface name rest in
    if not i.is_inet || not (str_eq i.name name) then found else some (i.address, i.mask)

-- errno == EINPROGRESS, 115
unfoldable pub is_einprogress : Errno → Bool
is_einprogress (Errno.other n) = n == 115
is_einprogress _ = false

module _ (host : Host) where
  -- readIfaceIpv4: the address and the mask
  unfoldable pub read_iface_ipv4 : Environment → World → Option (ℕ × ℕ)
  unfolding read_path_setting
  read_iface_ipv4 env w = elim (host.interfaces w) [
    | none ↦ none
    | some list ↦
        find_interface (read_path_setting env (text "OTA_MQTT_DISCOVER_IFACE") (text "eth0")) list
  ]

  -- setNonBlock: whether it succeeds
  unfoldable pub set_non_block : World → Bool
  set_non_block w = host.get_flags w && host.set_flags w

  -- Lines 156 to 167.
  unfoldable pub connects_in_time : ℕ → World → Bool
  connects_in_time timeout w =
      host.select w timeout && (elim (host.so_error w) [ none ↦ false | some e ↦ e == 0 ])

  -- Lines 148 to 167, on what connect gives.
  unfoldable pub connects_by : ℕ → World → Option Errno → Bool
  connects_by timeout w none = true
  connects_by timeout w (some e) = is_einprogress e && connects_in_time timeout w

  -- probeTcpPort: whether it returns 0. The log has the attempt; errno is not looked at behind it.
  unfoldable pub probe_tcp_port : Bytes → ℕ → ℕ → World → Bool × World
  probe_tcp_port ip port timeout w =
      let v = put_log (probed ip port timeout) w in
      (
        host.pton ip
            && (host.socket v
                && (set_non_block v && connects_by timeout v (host.connect v ip port))),
        v,
      )

  module _ (port size self network : ℕ) where
    -- Lines 233 to 239, on what probeTcpPort gives; `rest` goes on with the loop.
    unfoldable pub found_by :
        Bytes → (World → Option Bytes × World) → Bool × World → Option Bytes × World
    found_by ip rest (true, w) = if leb size (length ip) then (none, w) else (some ip, w)
    found_by ip rest (false, w) = rest w

    -- The loop of scanLanForBroker, with `count` rounds left.
    unfoldable pub scan_loop : ℕ → ℕ → World → Option Bytes × World
    scan_loop zero h w = (none, set_errno enoent w)
    scan_loop (suc count) h w =
        let candidate = or_bits 32 network h in
        let rest = scan_loop count (suc h) in
        if candidate == self
        then rest w
        else found_by (format_ipv4 candidate) rest
            (probe_tcp_port (format_ipv4 candidate) port 40 w)

  -- Lines 216 to 242, with the address and the mask.
  unfoldable pub scan_network : ℕ → ℕ → ℕ × ℕ → World → Option Bytes × World
  scan_network port size (self, mask) w =
      if mask == 0
      then (none, w)
      else if not32 mask == 0 || ltb 0xffff (not32 mask)
      then (none, set_errno erange w)
      else scan_loop port size self (and_bits 32 self mask) (not32 mask - 1) 1 w

  -- scanLanForBroker, into a buffer of `size` bytes
  unfoldable pub scan_lan_for_broker : Environment → ℕ → ℕ → World → Option Bytes × World
  scan_lan_for_broker env port size w = elim (read_iface_ipv4 env w) [
    | none ↦ (none, w)
    | some ends ↦ scan_network port size ends w
  ]
