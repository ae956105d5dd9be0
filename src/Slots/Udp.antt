-- ===== src/Slots/Udp.antt =====
-- v3/relay/server.go: where the UDP packets of a port go.
use relay_x.Prelude.{
  ℕ, ◌≡◌, refl, sym, subst, ap, ◌∙◌, ◌⊎◌, inl, inr, Bool, true, false, Option, none, some, Text,
  Bool-cases,
}
use relay_x.Slots.{UdpAddr, PortSlot, RelayServer, set_slot}
use relay_x.Slots.Peers.{ip_bytes, clone_udp_addr, udp_addr_equal, from_other, packet, udp_packet}

abbrev pub HasIp : UdpAddr → Type 0
HasIp a = (ip : Text) × (a.ip ≡ some ip)

clone_known : (a : UdpAddr) → HasIp a → clone_udp_addr a ≡ a
clone_known a (ip, e) =
    ap (λ i. record a { ip = some (ip_bytes i) }) e ∙ ap (λ i. record a { ip = i }) (sym e)

module _ (ip_equal : Text → Text → Bool) where
  -- Of two peers the second does not have the address of the first.
  abbrev pub Apart : Option UdpAddr → Option UdpAddr → Type 0
  Apart (some a) (some b) = udp_addr_equal ip_equal b a ≡ false
  Apart none b = b ≡ none
  Apart (some a) none = Unit {0}

  abbrev pub SlotApart : PortSlot → Type 0
  SlotApart slot = Apart slot.udp_a slot.udp_b

  -- Where a packet goes: nowhere, from the first peer to the second, or from another sender, the second
  -- peer, to the first.
  abbrev pub Routed : Option UdpAddr → Option UdpAddr → UdpAddr → Option UdpAddr → Type 0
  Routed a b addr none = Unit {0}
  Routed none b addr (some d) = ⊥
  Routed (some a) none addr (some d) = ⊥
  Routed (some a) (some b) addr (some d) =
      ((udp_addr_equal ip_equal addr a ≡ true) × (d ≡ b))
      ⊎ ((udp_addr_equal ip_equal addr a ≡ false)
          × (udp_addr_equal ip_equal addr b ≡ true)
          × (d ≡ a))

  -- A sender that is neither of two peers.
  abbrev pub Stranger : Option UdpAddr → Option UdpAddr → UdpAddr → Type 0
  Stranger (some a) (some b) addr =
      (udp_addr_equal ip_equal addr a ≡ false) × (udp_addr_equal ip_equal addr b ≡ false)
  Stranger _ b addr = ⊥

  abbrev pub Routes :
      Option UdpAddr → Option UdpAddr → UdpAddr → PortSlot → PortSlot × Option UdpAddr → Type 0
  Routes a b addr slot (slot', out) =
      Routed a b addr out × SlotApart slot' × (Stranger a b addr → (slot' ≡ slot) × (out ≡ none))

  other-Routes :
      (a addr : UdpAddr) (b : Option UdpAddr) (now : ℕ) (slot : PortSlot)
      → slot.udp_a ≡ some a
      → slot.udp_b ≡ b
      → Apart (some a) b
      → HasIp addr
      → udp_addr_equal ip_equal addr a ≡ false
      → Routes (some a) b addr slot (from_other ip_equal b a addr now slot)
  other-Routes a addr none now slot e f v i n = (tt, rw (e, clone_known addr i) n, λ h. absurd h)
  other-Routes a addr (some b) now slot e f v i n =
      elim (Bool-cases (udp_addr_equal ip_equal addr b)) [
        | inl k ↦ rw k (inr (n, k, refl), rw (e, f) v, λ h. cc)
        | inr k ↦ rw k (tt, rw (e, f) v, λ h. (refl, refl))
      ]

  same-Routes :
      (a addr : UdpAddr) (b : Option UdpAddr) (now : ℕ) (slot : PortSlot)
      → slot.udp_a ≡ some a
      → slot.udp_b ≡ b
      → Apart (some a) b
      → udp_addr_equal ip_equal addr a ≡ true
      → Routes (some a) b addr slot (record slot { udp_last_a = now }, slot.udp_b)
  same-Routes a addr none now slot e f v k = (rw f tt, rw (e, f) tt, λ h. absurd h)
  same-Routes a addr (some b) now slot e f v k = (rw f (inl (k, refl)), rw (e, f) v, λ h. cc)

  packet-Routes :
      (a b : Option UdpAddr) (addr : UdpAddr) (now : ℕ) (slot : PortSlot)
      → slot.udp_a ≡ a
      → slot.udp_b ≡ b
      → Apart a b
      → HasIp addr
      → Routes a b addr slot (packet ip_equal a addr now slot)
  packet-Routes none b addr now slot e f v i = (tt, rw (f ∙ v) tt, λ h. absurd h)
  packet-Routes (some a) b addr now slot e f v i =
      elim (Bool-cases (udp_addr_equal ip_equal addr a)) [
        | inl k ↦ rw k (same-Routes a addr b now slot e f v k)
        | inr k ↦ rw k (
            subst (λ o. Routes (some a) b addr slot (from_other ip_equal o a addr now slot)) (sym f)
              (other-Routes a addr b now slot e f v i k))
      ]

  -- A packet, of a sender with an IP, at a port whose two UDP peers, as far as there are two, differ: it is sent on only from
  -- the first to the second or from the second to the first; a packet of a third sender is dropped
  -- and changes nothing; the peers then still differ, and no other port changes.
  pub udp_packet_lem :
      (port : ℕ) (addr : UdpAddr) (now : ℕ) (s : RelayServer) (slot : PortSlot)
      → s.slots port ≡ some slot
      → SlotApart slot
      → HasIp addr
      → let (s', out) = udp_packet ip_equal port addr now s in
        (slot' : PortSlot) × (s' ≡ set_slot port slot' s)
        × Routes slot.udp_a slot.udp_b addr slot (slot', out)
  unfolding udp_packet
  udp_packet_lem port addr now s slot e v i = rw e (
    (packet ip_equal slot.udp_a addr now slot).0,
    refl,
    packet-Routes slot.udp_a slot.udp_b addr now slot refl refl v i,
  )
