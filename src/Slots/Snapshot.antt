-- ===== src/Slots/Snapshot.antt =====
-- v3/relay/server.go: `SnapshotPortState`, which first drops waiting connections that were closed; and the
-- leases of v3/control/port_manager.go over such a snapshot. What looking at a waiting connection gives,
-- whether it was closed, is an argument.
use relay_x.Prelude.{
  ℕ, ◌+◌, ◌≡◌, refl, ◌∙◌, inl, inr, Bool, false, not, ◌&&◌, ◌||◌, Option, none, some, List, [], ◌∷◌,
  arith, put, length, Bool-cases, ==_iff, if◌then◌else◌,
}
use relay_x.Prelude.Sorting.{sort, elem, elem-sort, length-sort}
use relay_x.Slots.{Waiting, PortSlot, RelayServer}
use relay_x.Slots.Valid.{is_some}

abbrev closed_of : (Waiting → Bool) → Option Waiting → List ℕ → List ℕ
closed_of gone none log = log
closed_of gone (some w) log = if gone w then w.conn ∷ log else log

abbrev pub kept_of : (Waiting → Bool) → Option Waiting → Option Waiting
kept_of gone none = none
kept_of gone (some w) = if gone w then none else some w

-- `cleanupPendingConn`, for both sides of a slot.
abbrev pub cleaned_at : (Waiting → Bool) → Option PortSlot → ℕ → RelayServer → RelayServer
cleaned_at gone none port s = s
cleaned_at gone (some slot) port s = record s {
  slots = put s.slots port (
      some (record slot {
        pending_be = kept_of gone slot.pending_be;
        pending_fe = kept_of gone slot.pending_fe;
      }));
  closed = closed_of gone slot.pending_fe (closed_of gone slot.pending_be s.closed);
}

-- The first loop, over the ports in the order that Go visits them.
unfoldable pub cleanup_all : (Waiting → Bool) → List ℕ → RelayServer → RelayServer
cleanup_all gone [] s = s
cleanup_all gone (port ∷ order) s = cleanup_all gone order (cleaned_at gone (s.slots port) port s)

pub record PortStateSnapshot : Type 0 where
  pub total : ℕ
  pub busy_count : ℕ
  pub ready_ports : List ℕ
  pub empty_ports : List ℕ

abbrev pub is_busy_slot : PortSlot → Bool
is_busy_slot slot = slot.tcp_busy || (is_some slot.udp_a && is_some slot.udp_b)

abbrev pub is_used_slot : PortSlot → Bool
is_used_slot slot =
    is_some slot.pending_be || is_some slot.pending_fe || is_some slot.udp_a || is_some slot.udp_b

-- A round of the second loop.
abbrev count_slot : Option PortSlot → ℕ → PortStateSnapshot → PortStateSnapshot
count_slot none port n = n
count_slot (some slot) port n =
    if is_busy_slot slot
    then record n { total = n.total + 1; busy_count = n.busy_count + 1 }
    else if is_used_slot slot
    then record n { total = n.total + 1; ready_ports = port ∷ n.ready_ports }
    else record n { total = n.total + 1; empty_ports = port ∷ n.empty_ports }

unfoldable pub count_slots : List ℕ → RelayServer → PortStateSnapshot
count_slots [] s = record { total = 0; busy_count = 0; ready_ports = []; empty_ports = [] }
count_slots (port ∷ order) s = count_slot (s.slots port) port (count_slots order s)

abbrev sorted_snapshot : PortStateSnapshot → PortStateSnapshot
sorted_snapshot n = record n { ready_ports = sort n.ready_ports; empty_ports = sort n.empty_ports }

-- `SnapshotPortState`; the lists are built in the reverse order of the loop and sorted after it.
unfoldable pub snapshot_port_state :
    (Waiting → Bool) → List ℕ → RelayServer → RelayServer × PortStateSnapshot
unfolding cleanup_all count_slots
snapshot_port_state gone order s =
    let s1 = cleanup_all gone order s in (s1, sorted_snapshot (count_slots order s1))

abbrev pub is_ready : Option PortSlot → Bool
is_ready none = false
is_ready (some slot) = not (is_busy_slot slot) && is_used_slot slot

abbrev pub is_unused : Option PortSlot → Bool
is_unused none = false
is_unused (some slot) = not (is_busy_slot slot) && not (is_used_slot slot)

abbrev pub Counted : List ℕ → RelayServer → PortStateSnapshot → Type 0
Counted order s n =
    (n.total ≡ n.busy_count + length n.ready_ports + length n.empty_ports)
    × ((q : ℕ) → elem q n.ready_ports ≡ (elem q order && is_ready (s.slots q)))
    × ((q : ℕ) → elem q n.empty_ports ≡ (elem q order && is_unused (s.slots q)))

count_slot-Counted :
    (o : Option PortSlot) (port : ℕ) (order : List ℕ) (s : RelayServer) (n : PortStateSnapshot)
    → s.slots port ≡ o
    → Counted order s n
    → Counted (port ∷ order) s (count_slot o port n)
unfolding elem
count_slot-Counted none port order s n e (t, r, m) =
    (t, λ q. ground (arith, r q, ==_iff port q), λ q. ground (arith, m q, ==_iff port q))
count_slot-Counted (some slot) port order s n e (t, r, m) = elim (Bool-cases (is_busy_slot slot)) [
  | inl b ↦ rw b (
    omega arith,
    λ q. ground (arith, r q, ==_iff port q),
    λ q. ground (arith, m q, ==_iff port q),
  )
  | inr b ↦ rw b (elim (Bool-cases (is_used_slot slot)) [
    | inl u ↦ rw u (
      omega arith,
      λ q. ground (arith, r q, ==_iff port q),
      λ q. ground (arith, m q, ==_iff port q),
    )
    | inr u ↦ rw u (
      omega arith,
      λ q. ground (arith, r q, ==_iff port q),
      λ q. ground (arith, m q, ==_iff port q),
    )
  ])
]

count_slots-Counted : (order : List ℕ) (s : RelayServer) → Counted order s (count_slots order s)
unfolding count_slots elem
count_slots-Counted [] s = (omega arith, λ q. refl, λ q. refl)
count_slots-Counted (port ∷ order) s =
    count_slot-Counted (s.slots port) port order s (count_slots order s) refl
      (count_slots-Counted order s)

-- The snapshot counts each slot once: as busy, ready or empty. Its ready ports are those, of the ports
-- looked at, whose slots are not busy and have a connection or a UDP peer; its empty ports those whose
-- slots are not busy and have neither, after the connections that were closed are dropped.
pub snapshot_port_state_lem :
    (gone : Waiting → Bool) (order : List ℕ) (s : RelayServer)
    → let (s1, n) = snapshot_port_state gone order s in Counted order s1 n
unfolding snapshot_port_state
snapshot_port_state_lem gone order s =
    let s1 = cleanup_all gone order s in
    let n = count_slots order s1 in
    let (t, r, m) = count_slots-Counted order s1 in
    (
      omega (arith, length-sort n.ready_ports, length-sort n.empty_ports),
      λ q. elem-sort q n.ready_ports ∙ r q,
      λ q. elem-sort q n.empty_ports ∙ m q,
    )
