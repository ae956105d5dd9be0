-- ===== src/Leases/Tests.antt =====
-- Two clients that want a lease of port 2300.
use relay_x.Prelude.{ℕ, ◌≡◌, ◌≢◌, refl, true, some, [], ◌∷◌, Text, codes, arith, ap}
use relay_x.Prelude.Int.{pos}
use relay_x.Prelude.Assoc.{lookup, text_key, number_key}
use relay_x.Leases.{
  Reservation, PortManager, PortAcquire, new_port_manager, is_port_available, reservation_of,
  acquire_from_ready, release,
}
use relay_x.Leases.Valid.{IsValid}
use relay_x.Leases.Acquire.{quiet}
use relay_x.Leases.Race.{Reach, start, next, acquiring, Reach-leases, crossed, crossed_leases}

abbrev request : PortAcquire
request = record { request_id = codes "r"; need_zmq = true; need_srt = true; ttl_seconds = pos 0 }

abbrev leased : PortManager
leased =
    (acquire_from_ready quiet (2300 ∷ []) (2301 ∷ []) (some 7) request (codes "a") 5
      new_port_manager).0

leased-Reach : Reach leased
unfolding new_port_manager lookup
leased-Reach =
    next start (acquiring (2300 ∷ []) (2301 ∷ []) (some 7) request (codes "a") 5 refl refl)

Reach-leases_example :
    IsValid leased
    × ((s t : Text) (q r : Reservation)
        → lookup s leased.by_session ≡ some q
        → lookup t leased.by_session ≡ some r
        → q.port ≡ r.port
        → s ≡ t)
Reach-leases_example = Reach-leases leased-Reach

not_leased_yet : is_port_available 2300 new_port_manager ≡ true
unfolding is_port_available new_port_manager
not_leased_yet = refl

other_sessions : codes "a" ≢ codes "b"
other_sessions e = absurd (omega (arith, ap first_code e))
  where
    first_code : Text → ℕ
    first_code [] = 0
    first_code (c ∷ s) = c

abbrev two : PortManager
two =
    crossed 2300 5 [] (2301 ∷ []) (some 7) (some 8) request request (codes "a") (codes "b")
      new_port_manager

crossed_leases_example :
    (lookup (codes "a") two.by_session ≡ some (reservation_of (some 7) request 2300 (codes "a") 5))
    × (lookup (codes "b") two.by_session
        ≡ some (reservation_of (some 8) request 2300 (codes "b") 5))
    × ((release (some 8) (codes "b") two).1 ≡ some 2300)
    × (lookup (codes "a") (release (some 8) (codes "b") two).0.by_session
        ≡ some (reservation_of (some 7) request 2300 (codes "a") 5))
    × (is_port_available 2300 (release (some 8) (codes "b") two).0 ≡ true)
crossed_leases_example =
    crossed_leases 2300 5 [] (2301 ∷ []) (some 7) (some 8) request request (codes "a") (codes "b")
      new_port_manager not_leased_yet other_sessions
