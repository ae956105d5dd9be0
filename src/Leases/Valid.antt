-- ===== src/Leases/Valid.antt =====
-- v3/control/port_manager.go: the invariant of the three maps.
use relay_x.Prelude.{ℕ, ◌≡◌, Bool, false, Option, none, some, Text, ◌==◌, if◌then◌else◌}
use relay_x.Prelude.Assoc.{lookup, text_key, number_key}
use relay_x.Leases.{Reservation, PortManager, owner_set}

abbrev pub owns : ℕ → Option ℕ → Bool
owns o none = false
owns o (some a) = a == o

-- A session's reservation, if it is the owner's.
abbrev pub owned_by : ℕ → Option Reservation → Option Reservation
owned_by o none = none
owned_by o (some r) = if owns o r.owner then some r else none

-- Each reservation stands under its session, its port and its owner, in all maps or in none; so a port
-- is leased to one session at most.
pub record IsValid (pm : PortManager) : Type 0 where
  pub sessions :
      (s : Text) {r : Reservation}
      → lookup s pm.by_session ≡ some r
      → (r.session_id ≡ s) × (lookup r.port pm.by_port ≡ some r)
  pub leases :
      (p : ℕ) {r : Reservation}
      → lookup p pm.by_port ≡ some r
      → (r.port ≡ p) × (lookup r.session_id pm.by_session ≡ some r)
  pub owners : (o : ℕ) (s : Text) → lookup s (owner_set o pm) ≡ owned_by o (lookup s pm.by_session)
