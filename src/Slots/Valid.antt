-- ===== src/Slots/Valid.antt =====
-- v3/relay/server.go: the invariant of the slots.
use relay_x.Prelude.{
  ℕ, ◌≡◌, refl, ◌∙◌, ◌⊎◌, ◌&&◌, inl, inr, Bool, true, false, Option, none, some, Text, put,
  Bool-cases, ◌==◌,
}
use relay_x.Errors.{Result, ok, err}
use relay_x.Slots.{
  UdpAddr, PortSlot, RelayServer, new_slot, set_slot, start_relay_port, stop_port, reset_port,
  PipeSession, on_stop, is_session, kept_be, start_at, stop_at, reset_at, cleared, ended,
}
use relay_x.Slots.Peers.{
  udp_packet, udp_sweep, udp_addr_equal, from_other, is_idle, packet_at, packet, sweep_at, swept,
}

abbrev pub is_some {ℓ} : {A : Type ℓ} → Option A → Bool
is_some none = false
is_some (some a) = true

-- A slot is busy while it has a session; a busy slot has nobody waiting; a slot never has a front end
-- and a back end waiting; and it has a second UDP peer only beside a first.
pub record IsValidSlot (slot : PortSlot) : Type 0 where
  pub busy : slot.tcp_busy ≡ is_some slot.tcp_session
  pub settled : slot.tcp_busy ≡ true → (slot.pending_be ≡ none) × (slot.pending_fe ≡ none)
  pub one_side : (slot.pending_be ≡ none) ⊎ (slot.pending_fe ≡ none)
  pub peers : slot.udp_a ≡ none → slot.udp_b ≡ none

abbrev pub At : (PortSlot → Type 0) → Option PortSlot → Type 0
At P none = Unit {0}
At P (some slot) = P slot

abbrev pub IsValid : RelayServer → Type 0
IsValid s = (port : ℕ) → At IsValidSlot (s.slots port)

pub set_slot-IsValid :
    (port : ℕ) (slot : PortSlot) (s : RelayServer)
    → IsValidSlot slot
    → IsValid s
    → IsValid (set_slot port slot s)
set_slot-IsValid port slot s w v q = elim (Bool-cases (port == q)) [
  | inl e ↦ rw e w
  | inr e ↦ rw e (v q)
]

drop-IsValid :
    (port : ℕ) (s : RelayServer) → IsValid s → (q : ℕ) → At IsValidSlot (put s.slots port none q)
drop-IsValid port s v q = elim (Bool-cases (port == q)) [ inl e ↦ rw e tt | inr e ↦ rw e (v q) ]

new_slot-IsValidSlot : (ln udp : ℕ) → IsValidSlot (new_slot ln udp)
new_slot-IsValidSlot ln udp = record {
  busy = refl;
  settled = λ h. (refl, refl);
  one_side = inl refl;
  peers = λ h. refl;
}

has_session : (x : ℕ) (o : Option ℕ) → is_session x o ≡ true → is_some o ≡ true
has_session x none h = cc
has_session x (some y) h = refl

ended-IsValidSlot :
    (slot : PortSlot) (kept : Bool) (x : PipeSession)
    → IsValidSlot slot
    → is_session x.session slot.tcp_session ≡ true
    → IsValidSlot (record slot {
      tcp_session = none;
      tcp_busy = false;
      pending_be = kept_be kept x slot.pending_be;
    })
ended-IsValidSlot slot kept x v h =
    let e = has_session x.session slot.tcp_session h in
    record {
      busy = refl;
      settled = λ k. cc;
      one_side = inr (v.settled (v.busy ∙ e)).1;
      peers = v.peers;
    }

packet-IsValidSlot :
    (ip_equal : Text → Text → Bool) (a b : Option UdpAddr) (addr : UdpAddr) (now : ℕ)
    (slot : PortSlot)
    → slot.udp_a ≡ a
    → slot.udp_b ≡ b
    → IsValidSlot slot
    → IsValidSlot (packet ip_equal a addr now slot).0
packet-IsValidSlot ip_equal none b addr now slot e f v = record {
  busy = v.busy;
  settled = v.settled;
  one_side = v.one_side;
  peers = λ h. cc;
}
packet-IsValidSlot ip_equal (some a) b addr now slot e f v =
    elim (Bool-cases (udp_addr_equal ip_equal addr a)) [
      | inl k ↦
          rw k
            (record { busy = v.busy; settled = v.settled; one_side = v.one_side; peers = v.peers })
      | inr k ↦ rw k (other slot.udp_b)
    ]
  where
    other : (o : Option UdpAddr) → IsValidSlot (from_other ip_equal o a addr now slot).0
    other none = record {
      busy = v.busy;
      settled = v.settled;
      one_side = v.one_side;
      peers = λ h. cc;
    }
    other (some c) = elim (Bool-cases (udp_addr_equal ip_equal addr c)) [
      | inl k ↦
          rw k
            (record { busy = v.busy; settled = v.settled; one_side = v.one_side; peers = v.peers })
      | inr k ↦ rw k v
    ]

swept-IsValidSlot :
    (a b : Option UdpAddr) (now timeout : ℕ) (slot : PortSlot)
    → slot.udp_a ≡ a
    → slot.udp_b ≡ b
    → IsValidSlot slot
    → IsValidSlot (swept a b now timeout slot)
swept-IsValidSlot none b now timeout slot e f v = v
swept-IsValidSlot (some a) none now timeout slot e f v =
    elim (Bool-cases (is_idle now timeout slot.udp_last_a)) [
      | inl k ↦
          rw k
            (record { busy = v.busy; settled = v.settled; one_side = v.one_side; peers = λ h. f })
      | inr k ↦ rw k v
    ]
swept-IsValidSlot (some a) (some b) now timeout slot e f v =
    elim (Bool-cases (is_idle now timeout slot.udp_last_a && is_idle now timeout slot.udp_last_b)) [
      | inl k ↦
          rw k (record {
            busy = v.busy;
            settled = v.settled;
            one_side = v.one_side;
            peers = λ h. refl;
          })
      | inr k ↦ rw k v
    ]

-- The steps that take one lock.
pub data Act : Type 0 where
  starting : ℕ → Result ℕ → Result ℕ → Act
  stopping_port : ℕ → Act
  resetting : ℕ → Act
  ending : ℕ → Bool → PipeSession → Act
  packeting : ℕ → UdpAddr → ℕ → Act
  sweeping : ℕ → ℕ → ℕ → Act

module _ (ip_equal : Text → Text → Bool) where
  abbrev pub act : Act → RelayServer → RelayServer
  act (starting port tcp udp) s = (start_relay_port port tcp udp s).0
  act (stopping_port port) s = stop_port port s
  act (resetting port) s = reset_port port s
  act (ending port kept x) s = on_stop port kept x s
  act (packeting port addr now) s = (udp_packet ip_equal port addr now s).0
  act (sweeping port now timeout) s = udp_sweep port now timeout s

  start-IsValid :
      (port : ℕ) (tcp udp : Result ℕ) (s : RelayServer)
      → IsValid s
      → IsValid (start_relay_port port tcp udp s).0
  unfolding start_relay_port
  start-IsValid port tcp udp s v = go (s.slots port) tcp udp
    where
      go : (o : Option PortSlot) (tcp udp : Result ℕ) → IsValid (start_at o port tcp udp s).0
      go (some slot) tcp udp = v
      go none (err e) udp = v
      go none (ok ln) (err e) = v
      go none (ok ln) (ok u) = set_slot-IsValid port (new_slot ln u) s (new_slot-IsValidSlot ln u) v

  stop-IsValid : (port : ℕ) (s : RelayServer) → IsValid s → IsValid (stop_port port s)
  unfolding stop_port
  stop-IsValid port s v = go (s.slots port)
    where
      go : (o : Option PortSlot) → IsValid (stop_at o port s)
      go none = v
      go (some slot) = drop-IsValid port s v

  reset-IsValid : (port : ℕ) (s : RelayServer) → IsValid s → IsValid (reset_port port s)
  unfolding reset_port
  reset-IsValid port s v = go (s.slots port)
    where
      go : (o : Option PortSlot) → IsValid (reset_at o port s)
      go none = v
      go (some slot) =
          set_slot-IsValid port (cleared slot) s (new_slot-IsValidSlot slot.tcp_ln slot.udp_conn) v

  on_stop-IsValid :
      (port : ℕ) (kept : Bool) (x : PipeSession) (s : RelayServer)
      → IsValid s
      → IsValid (on_stop port kept x s)
  unfolding on_stop
  on_stop-IsValid port kept x s v = go (s.slots port) (v port)
    where
      go : (o : Option PortSlot) → At IsValidSlot o → IsValid (ended o port kept x s)
      go none w = v
      go (some slot) w = elim (Bool-cases (is_session x.session slot.tcp_session)) [
        | inl e ↦ rw e (
            set_slot-IsValid port
              (record slot {
                tcp_session = none;
                tcp_busy = false;
                pending_be = kept_be kept x slot.pending_be;
              })
              s (ended-IsValidSlot slot kept x w e) v)
        | inr e ↦ rw e v
      ]

  packet-IsValid :
      (port : ℕ) (addr : UdpAddr) (now : ℕ) (s : RelayServer)
      → IsValid s
      → IsValid (udp_packet ip_equal port addr now s).0
  unfolding udp_packet
  packet-IsValid port addr now s v = go (s.slots port) (v port)
    where
      go :
          (o : Option PortSlot)
          → At IsValidSlot o
          → IsValid (packet_at ip_equal o port addr now s).0
      go none w = v
      go (some slot) w =
          set_slot-IsValid port (packet ip_equal slot.udp_a addr now slot).0 s
            (packet-IsValidSlot ip_equal slot.udp_a slot.udp_b addr now slot refl refl w) v

  udp_sweep-IsValid :
      (port now timeout : ℕ) (s : RelayServer) → IsValid s → IsValid (udp_sweep port now timeout s)
  unfolding udp_sweep
  udp_sweep-IsValid port now timeout s v = go (s.slots port) (v port)
    where
      go : (o : Option PortSlot) → At IsValidSlot o → IsValid (sweep_at o port now timeout s)
      go none w = v
      go (some slot) w =
          set_slot-IsValid port (swept slot.udp_a slot.udp_b now timeout slot) s
            (swept-IsValidSlot slot.udp_a slot.udp_b now timeout slot refl refl w) v

  pub act-IsValid : (a : Act) (s : RelayServer) → IsValid s → IsValid (act a s)
  act-IsValid (starting port tcp udp) s v = start-IsValid port tcp udp s v
  act-IsValid (stopping_port port) s v = stop-IsValid port s v
  act-IsValid (resetting port) s v = reset-IsValid port s v
  act-IsValid (ending port kept x) s v = on_stop-IsValid port kept x s v
  act-IsValid (packeting port addr now) s v = packet-IsValid port addr now s v
  act-IsValid (sweeping port now timeout) s v = udp_sweep-IsValid port now timeout s v
