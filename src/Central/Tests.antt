-- ===== src/Central/Tests.antt =====
-- A hub with one client, which leases port 2301 and leaves.
use relay_x.Prelude.{
  Bool, text_eq, ◌||◌, ℕ, ◌≡◌, refl, true, false, none, some, [], ◌∷◌, Text, codes,
}
use relay_x.Prelude.Int.{pos}
use relay_x.Prelude.Assoc.{lookup, text_key, number_key}
use relay_x.Prelude.Sorting.{elem, sort}
use relay_x.Errors.{ok}
use relay_x.Leases.{present, Reservation, PortAcquire, new_port_manager}
use relay_x.Leases.Valid.{owns}
use relay_x.Slots.Snapshot.{snapshot_port_state}
use relay_x.Central.{
  World, Central, new_central, connect, handle, acquiring, allocating, close_client,
}
use relay_x.Central.Ranges.{PortAlloc, union_ports_from_ranges}
use relay_x.Central.Valid.{IsValid}
use relay_x.Central.Handling.{
  Reach, start, next, connecting, requesting, disconnecting, Reach-Central,
}

abbrev ranges : PortAlloc
ranges = record {
  zmq_start_port = pos 2301;
  zmq_end_port = pos 2301;
  srt_start_port = pos 0;
  srt_end_port = pos 0;
}

abbrev world : World
world = record {
  config = ranges;
  broken = λ c. false;
  gone = λ w. false;
  listen = λ port. (ok 1, ok 2);
  order = 2301 ∷ [];
}

abbrev request : PortAcquire
request = record { request_id = codes "r"; need_zmq = true; need_srt = true; ttl_seconds = pos 0 }

abbrev connected : Central
connected = connect world 7 new_central

abbrev opened : Central
opened = handle world 7 (allocating ranges) connected

abbrev leased : Central
leased = handle world 7 (acquiring request (codes "s") 5) opened

abbrev left : Central
left = close_client 7 leased

opened-may : (elem 7 opened.clients || false) ≡ true
unfolding handle connect new_central elem snapshot_port_state union_ports_from_ranges sort
opened-may = refl

opened-lookup : lookup (codes "s") opened.leases.by_session ≡ none
unfolding handle connect new_central elem snapshot_port_state union_ports_from_ranges sort lookup
    new_port_manager
opened-lookup = refl

-- The handler of no client asks after the client has left.
abbrev nobody : ℕ → Bool
nobody c = false

left-Reach : Reach nobody left
left-Reach =
    next
      (next
        (next (next start (connecting world 7 refl))
          (requesting world 7 (allocating ranges) tt tt refl))
        (requesting world 7 (acquiring request (codes "s") 5) opened-lookup opened-may refl))
      (disconnecting 7 refl)

Reach-Central_example :
    IsValid nobody left
    × ((c : ℕ) (sid : Text) (r : Reservation)
        → elem c left.clients ≡ false
        → nobody c ≡ false
        → lookup sid left.leases.by_session ≡ some r
        → owns c r.owner ≡ false)
Reach-Central_example = Reach-Central nobody left-Reach

-- The handler of a client that has left takes one more message, and the client has a lease.
late_lease :
    present
      (lookup (codes "t") (handle world 7 (acquiring request (codes "t") 6) left).leases.by_session)
    ≡ true
unfolding handle connect close_client new_central elem snapshot_port_state union_ports_from_ranges
    sort lookup new_port_manager text_eq
late_lease = refl
