-- ===== src/Slots/Granting.antt =====
-- v3/control/port_manager.go and v3/relay/server.go together: a lease of a port of a snapshot.
use relay_x.Prelude.{
  ℕ, ◌≡◌, ap, ◌∙◌, ◌⊎◌, inl, inr, Bool, true, Option, List, [], ◌∷◌, Text, arith, ==_iff,
}
use relay_x.Prelude.Sorting.{elem}
use relay_x.Prelude.Assoc.{number_key}
use relay_x.Errors.{Result, ok, err}
use relay_x.Leases.{
  PortManager, PortAcquire, PortGrant, is_port_available, reserve_port, acquire_from_ready,
}
use relay_x.Leases.Acquire.{quiet, FirstFree, AllLeased, Acquired, acquire_from_ready_lem}
use relay_x.Slots.{Waiting, RelayServer}
use relay_x.Slots.Snapshot.{
  PortStateSnapshot, snapshot_port_state, snapshot_port_state_lem, Counted, is_ready, is_unused,
}

FirstFree-elem :
    (pm : PortManager) (ports : List ℕ) (port : ℕ)
    → FirstFree pm ports port
    → (elem port ports ≡ true) × (is_port_available port pm ≡ true)
unfolding elem
FirstFree-elem pm [] port h = absurd h
FirstFree-elem pm (p ∷ ps) port (inl (e, h)) = (ground (arith, ==_iff p port), h)
FirstFree-elem pm (p ∷ ps) port (inr (e, h)) =
    let (a, b) = FirstFree-elem pm ps port h in (ground arith, b)

zmq_port_of :
    (owner : Option ℕ) (req : PortAcquire) (port : ℕ) (sid : Text) (now : ℕ) (pm qm : PortManager)
    (g : PortGrant)
    → (qm, g) ≡ reserve_port owner req port sid now pm
    → g.zmq_port ≡ port
unfolding reserve_port
zmq_port_of owner req port sid now pm qm g e = ap (λ t. t.1.zmq_port) e

-- Which slot a port that is granted has.
abbrev pub Grantable : List ℕ → RelayServer → PortManager → ℕ → Type 0
Grantable order s pm port =
    (elem port order ≡ true)
    × (is_port_available port pm ≡ true)
    × ((is_ready (s.slots port) ≡ true) ⊎ (is_unused (s.slots port) ≡ true))

module _ (owner : Option ℕ) (req : PortAcquire) (sid : Text) (now : ℕ) (pm : PortManager)
    (order : List ℕ) (s1 : RelayServer) (n : PortStateSnapshot) (c : Counted order s1 n) where
  grantable :
      (port : ℕ)
      → FirstFree pm n.ready_ports port
        ⊎ (AllLeased pm n.ready_ports × FirstFree pm n.empty_ports port)
      → Grantable order s1 pm port
  grantable port (inl f) =
      let (a, b) = FirstFree-elem pm n.ready_ports port f in
      (ground (arith, c.1 port), b, inl (ground (arith, c.1 port)))
  grantable port (inr (l, f)) =
      let (a, b) = FirstFree-elem pm n.empty_ports port f in
      (ground (arith, c.2 port), b, inr (ground (arith, c.2 port)))

  granted_of :
      (out : PortManager × Result PortGrant) {qm : PortManager} {g : PortGrant}
      → Acquired owner req sid now pm n.ready_ports n.empty_ports out
      → out ≡ (qm, ok g)
      → Grantable order s1 pm g.zmq_port
  granted_of (out, err e) h k = cc
  granted_of (out, ok f) {qm} {g} (port, l, e) k =
      let same : f.zmq_port ≡ port = zmq_port_of owner req port sid now pm out f e in
      let grant : g ≡ f = cc in rw (ap (λ x. x.zmq_port) grant ∙ same) (grantable port l)

-- An undisturbed acquire whose two snapshots of the relay's slots agree grants a port only if it is one
-- of those looked at, it is not leased to any session, and its slot is not busy.
pub granted_slot :
    (gone : Waiting → Bool) (order : List ℕ) (s : RelayServer) (owner : Option ℕ)
    (req : PortAcquire) (sid : Text) (now : ℕ) (pm : PortManager) {qm : PortManager} {g : PortGrant}
    → let (s1, n) = snapshot_port_state gone order s in
      acquire_from_ready quiet n.ready_ports n.empty_ports owner req sid now pm ≡ (qm, ok g)
      → Grantable order s1 pm g.zmq_port
granted_slot gone order s owner req sid now pm {qm} {g} h =
    let (s1, n) = snapshot_port_state gone order s in
    granted_of owner req sid now pm order s1 n (snapshot_port_state_lem gone order s)
      (acquire_from_ready quiet n.ready_ports n.empty_ports owner req sid now pm)
      (acquire_from_ready_lem owner req sid now pm n.ready_ports n.empty_ports) h
