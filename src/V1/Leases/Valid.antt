-- ===== src/V1/Leases/Valid.antt =====
-- v1/control/port_manager.go: the invariant of the three maps.
use relay_x.Prelude.{
  ℕ, ◌+◌, ◌<◌, ◌≡◌, ◌⊎◌, inl, inr, Bool, true, false, Option, none, some, List, Text, arith, ◌==◌,
  ==_iff, if◌then◌else◌,
}
use relay_x.Prelude.Assoc.{lookup, text_key, number_key, lookup-insert, lookup-delete}
use relay_x.V1.Leases.{Reservation, PortManager, Sids, set_in, drop_port, put_port}

-- The one port of a reservation.
abbrev pub port_of : Reservation → ℕ
port_of r = r.zmq_port + r.srt_port

abbrev pub HasOnePort : Reservation → Type 0
HasOnePort r = ((0 < r.zmq_port) × (r.srt_port ≡ 0)) ⊎ ((r.zmq_port ≡ 0) × (0 < r.srt_port))

abbrev pub holds : ℕ → Option Reservation → Bool
holds p none = false
holds p (some r) = port_of r == p

abbrev pub owned_by : ℕ → Option Reservation → Option (Unit {0})
owned_by o none = none
owned_by o (some r) = if r.owner == o then some tt else none

abbrev pub owner_set : ℕ → PortManager → Sids
owner_set o pm = set_in (lookup o pm.by_owner)

-- A reservation stands under its session, has a port of one kind, and is found under that port; a port
-- leads to a session that holds it; and the set of an owner has the sessions of its reservations.
pub record IsValid (pm : PortManager) : Type 0 where
  pub sessions :
      (s : Text) {r : Reservation}
      → lookup s pm.by_session ≡ some r
      → (r.session_id ≡ s) × HasOnePort r × (lookup (port_of r) pm.by_port ≡ some s)
  pub leases :
      (p : ℕ) {s : Text} → lookup p pm.by_port ≡ some s → holds p (lookup s pm.by_session) ≡ true
  pub owners : (o : ℕ) (s : Text) → lookup s (owner_set o pm) ≡ owned_by o (lookup s pm.by_session)

pub lookup-drop_port :
    (r : Reservation) (q : ℕ) (m : List (ℕ × Text))
    → HasOnePort r
    → lookup q (drop_port r.srt_port (drop_port r.zmq_port m))
      ≡ (if port_of r == q then none else lookup q m)
lookup-drop_port r q m (inl (h, e)) =
    ground (arith, lookup-delete r.zmq_port q m, ==_iff r.zmq_port q, ==_iff (port_of r) q)
lookup-drop_port r q m (inr (e, h)) =
    ground (arith, lookup-delete r.srt_port q m, ==_iff r.srt_port q, ==_iff (port_of r) q)

pub lookup-put_port :
    (r : Reservation) (q : ℕ) (s : Text) (m : List (ℕ × Text))
    → HasOnePort r
    → lookup q (put_port r.srt_port s (put_port r.zmq_port s m))
      ≡ (if port_of r == q then some s else lookup q m)
lookup-put_port r q s m (inl (h, e)) =
    ground (arith, lookup-insert r.zmq_port q s m, ==_iff r.zmq_port q, ==_iff (port_of r) q)
lookup-put_port r q s m (inr (e, h)) =
    ground (arith, lookup-insert r.srt_port q s m, ==_iff r.srt_port q, ==_iff (port_of r) q)
