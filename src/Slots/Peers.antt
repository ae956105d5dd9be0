-- ===== src/Slots/Peers.antt =====
-- v3/relay/server.go: the UDP side of a slot, its two peers.
use relay_x.Prelude.{
  ℕ, ◌-◌, Bool, true, false, not, ◌&&◌, Option, none, some, [], Text, text_eq, ltb, ◌==◌,
  if◌then◌else◌,
}
use relay_x.Slots.{UdpAddr, PortSlot, RelayServer, set_slot}

abbrev pub ip_bytes : Option Text → Text
ip_bytes none = []
ip_bytes (some ip) = ip

-- The copy of a nil IP is an IP of no bytes.
abbrev pub clone_udp_addr : UdpAddr → UdpAddr
clone_udp_addr a = record a { ip = some (ip_bytes a.ip) }

module _ (ip_equal : Text → Text → Bool) where
  abbrev ips_equal : Option Text → Option Text → Bool
  ips_equal none none = true
  ips_equal (some a) (some b) = ip_equal a b
  ips_equal none (some b) = false
  ips_equal (some a) none = false

  -- `udpAddrEqual`, for addresses that are not nil.
  unfoldable pub udp_addr_equal : UdpAddr → UdpAddr → Bool
  udp_addr_equal a b = a.port == b.port && text_eq a.zone b.zone && ips_equal a.ip b.ip

  abbrev pub from_other :
      Option UdpAddr → UdpAddr → UdpAddr → ℕ → PortSlot → PortSlot × Option UdpAddr
  from_other none a addr now slot =
      (record slot { udp_b = some (clone_udp_addr addr); udp_last_b = now }, none)
  from_other (some b) a addr now slot =
      if udp_addr_equal addr b then (record slot { udp_last_b = now }, some a) else (slot, none)

  -- A packet at a slot: the slot after it, and where it is sent on to.
  abbrev pub packet : Option UdpAddr → UdpAddr → ℕ → PortSlot → PortSlot × Option UdpAddr
  packet none addr now slot =
      (record slot { udp_a = some (clone_udp_addr addr); udp_last_a = now }, none)
  packet (some a) addr now slot =
      if udp_addr_equal addr a
      then (record slot { udp_last_a = now }, slot.udp_b)
      else from_other slot.udp_b a addr now slot

  abbrev pub packet_at :
      Option PortSlot → ℕ → UdpAddr → ℕ → RelayServer → RelayServer × Option UdpAddr
  packet_at none port addr now s = (s, none)
  packet_at (some slot) port addr now s =
      let out = packet slot.udp_a addr now slot in (set_slot port out.0 s, out.1)

  -- A round of `udpLoop`.
  unfoldable pub udp_packet : ℕ → UdpAddr → ℕ → RelayServer → RelayServer × Option UdpAddr
  unfolding udp_addr_equal
  udp_packet port addr now s = packet_at (s.slots port) port addr now s

-- `!last.IsZero() && now.Sub(last) > timeout`
abbrev pub is_idle : ℕ → ℕ → ℕ → Bool
is_idle now timeout last = not (last == 0) && ltb timeout (now - last)

-- The addresses of a slot in a round of `udpSweepLoop`.
abbrev pub swept : Option UdpAddr → Option UdpAddr → ℕ → ℕ → PortSlot → PortSlot
swept (some a) none now timeout slot =
    if is_idle now timeout slot.udp_last_a
    then record slot { udp_a = none; udp_last_a = 0 }
    else slot
swept (some a) (some b) now timeout slot =
    if is_idle now timeout slot.udp_last_a && is_idle now timeout slot.udp_last_b
    then record slot { udp_a = none; udp_b = none; udp_last_a = 0; udp_last_b = 0 }
    else slot
swept none b now timeout slot = slot

abbrev pub sweep_at : Option PortSlot → ℕ → ℕ → ℕ → RelayServer → RelayServer
sweep_at none port now timeout s = s
sweep_at (some slot) port now timeout s =
    set_slot port (swept slot.udp_a slot.udp_b now timeout slot) s

unfoldable pub udp_sweep : ℕ → ℕ → ℕ → RelayServer → RelayServer
udp_sweep port now timeout s = sweep_at (s.slots port) port now timeout s
