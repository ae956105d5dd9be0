-- ===== src/V1/Tests.antt =====
-- The first generation, run: a hub with one back end and one front end, which leases port 5 and leaves; a
-- relay whose port 5 is restarted; a reaper whose kill of port 5 is cancelled late.
use relay_x.Prelude.{
  Bool, ◌||◌, ℕ, suc, ◌==◌, ◌≡◌, refl, true, false, none, some, [], ◌∷◌, Text, codes, length, empty,
}
use relay_x.Prelude.Int.{pos, ◌+ℤ◌, ◌-ℤ◌}
use relay_x.Prelude.Assoc.{lookup, text_key, number_key}
use relay_x.Prelude.Sorting.{elem}
use relay_x.Errors.{ok}
use relay_x.Leases.{PortAcquire, present}
use relay_x.Slots.{Waiting, Role, be, fe, PipeSession}
use relay_x.Central.Ranges.{PortAlloc}
use relay_x.V1.Leases.{
  Reservation, PortManager, new_port_manager, acquire, acquire_from_ready, set_ranges,
}
use relay_x.V1.Leases.Valid as Maps
use relay_x.V1.Leases.Valid.{port_of}
use relay_x.V1.Leases.Answers.{Answer, acquire_lem}
use relay_x.V1.Leases.Life as Calls
use relay_x.V1.Leases.Life.{Reach-exclusive}
use relay_x.V1.Relay.{new_relay_server, stop_port, snapshot_port_state}
use relay_x.V1.Relay.Stale.{restarted, displaced, displaced_lem}
use relay_x.V1.Reaper.{
  Reaper, schedule_kill, cancel_kill, expire, begin_kill, end_kill, stop_session, late_cancel,
}
use relay_x.V1.Hub.{World, Hub, new_hub, connect, close_client, verify_auth, register}
use relay_x.V1.Hub.Messages.{handle, allocating, acquiring}
use relay_x.V1.Hub.Valid.{IsValid, is_client}
use relay_x.V1.Hub.Run.{Reach, start, next, connecting, requesting, disconnecting, Reach-Hub}
use relay_x.V1.Hub.Leak.{connect-place}
use relay_x.V1.Hub.Leaving.{close_client_lem}

abbrev ranges : PortAlloc
ranges = record {
  zmq_start_port = pos 5;
  zmq_end_port = pos 6;
  srt_start_port = pos 9;
  srt_end_port = pos 0;
}

abbrev world : World
world = record {
  max_fe = pos 1;
  max_be = pos 1;
  secret = codes "k";
  config = ranges;
  broken = λ c. c == 3;
  alive = λ w. true;
  listen = λ port. ok port;
  timer = λ port. port;
  waiting_order = [];
  listening_order = 5 ∷ 6 ∷ [];
  lease_order = [];
}

abbrev request : PortAcquire
request = record { request_id = codes "r"; need_zmq = true; need_srt = false; ttl_seconds = pos 1 }

abbrev ranged : PortManager
ranged = (set_ranges ranges new_port_manager).0

abbrev leasing : PortManager
leasing = (acquire (some 8) request [] (codes "s") 5 (λ p. false) ranged).0

leasing-Reach : Calls.Reach leasing
unfolding set_ranges new_port_manager lookup
leasing-Reach =
    Calls.next (Calls.next Calls.start (Calls.setting ranges refl))
      (Calls.acquiring (some 8) request [] (codes "s") 5 (λ p. false) refl refl)

Reach-exclusive_example :
    Maps.IsValid leasing
    × ((s t : Text) (q r : Reservation)
        → lookup s leasing.by_session ≡ some q
        → lookup t leasing.by_session ≡ some r
        → port_of q ≡ port_of r
        → s ≡ t)
Reach-exclusive_example = Reach-exclusive leasing-Reach

ranged-IsValid : Maps.IsValid ranged
unfolding set_ranges new_port_manager lookup
ranged-IsValid = (Reach-exclusive (Calls.next Calls.start (Calls.setting ranges refl))).0

ranged_none : (s : Text) → lookup s ranged.by_session ≡ none
unfolding set_ranges new_port_manager lookup
ranged_none s = refl

acquire_lem_example :
    Answer
      (some 8)
      request
      (codes "s")
      5
      (λ p. p == 5)
      ranged.zmq_ports
      ranged
      (acquire (some 8) request [] (codes "s") 5 (λ p. p == 5) ranged)
    × Answer
        (some 8)
        request
        (codes "s")
        5
        (λ p. p == 5)
        (pos 5 ∷ [])
        ranged
        (acquire_from_ready (some 8) request [] (codes "s") 5 (λ p. p == 5) (pos 5 ∷ []) [] ranged)
acquire_lem_example =
    acquire_lem (some 8) request [] (codes "s") 5 (λ p. p == 5) ranged ranged-IsValid
      (λ s h. ranged_none s) (pos 5 ∷ []) []

abbrev waiting : ℕ → Waiting
waiting c = record { conn = c; client_id = codes "c" }

abbrev old_session : PipeSession
old_session = record { session = 1; fe_conn = 1; be_conn = 2; be_id = codes "c" }

displaced_lem_example :
    ((restarted 5 7
          (codes "zmq")
          (waiting 1)
          (waiting 2)
          (waiting 3)
          (waiting 4)
          old_session
          2
          3
          new_relay_server).sessions
        5
      ≡ some 2)
    × ((restarted 5 7
            (codes "zmq")
            (waiting 1)
            (waiting 2)
            (waiting 3)
            (waiting 4)
            old_session
            2
            3
            new_relay_server).busy
          5
        ≡ true)
    × ((displaced 5 7
            (codes "zmq")
            (waiting 1)
            (waiting 2)
            (waiting 3)
            (waiting 4)
            old_session
            2
            3
            new_relay_server).0.sessions
          5
        ≡ some 3)
    × ((displaced 5 7
          (codes "zmq")
          (waiting 1)
          (waiting 2)
          (waiting 3)
          (waiting 4)
          old_session
          2
          3
          new_relay_server).0.stopped
        ≡ (restarted 5 7
            (codes "zmq")
            (waiting 1)
            (waiting 2)
            (waiting 3)
            (waiting 4)
            old_session
            2
            3
            new_relay_server).stopped)
    × ((displaced 5 7
          (codes "zmq")
          (waiting 1)
          (waiting 2)
          (waiting 3)
          (waiting 4)
          old_session
          2
          3
          new_relay_server).0.closed
        ≡ (restarted 5 7
            (codes "zmq")
            (waiting 1)
            (waiting 2)
            (waiting 3)
            (waiting 4)
            old_session
            2
            3
            new_relay_server).closed)
displaced_lem_example =
    displaced_lem 5 7 (codes "zmq") (waiting 1) (waiting 2) (waiting 3) (waiting 4) old_session 2 3
      new_relay_server

abbrev reaper : Reaper
reaper = record {
  pending_kills = empty;
  running = [];
  fired = [];
  begun = [];
  relay = new_relay_server;
}

late_cancel_example :
    let cancelled = cancel_kill (5 ∷ []) (expire 1 (schedule_kill ((5, 1) ∷ []) reaper)) in
    (cancelled.pending_kills 5 ≡ none)
    × (cancelled.running ≡ reaper.running)
    × ((end_kill (begin_kill cancelled)).relay ≡ stop_port 5 (stop_session 5 reaper.relay))
late_cancel_example = late_cancel 5 1 reaper refl refl

abbrev connected : Hub
connected = (connect world 8 (some (be, codes "k")) new_hub).0

abbrev opened : Hub
opened = handle world 8 be (allocating ranges) connected

abbrev leased : Hub
leased = handle world 8 be (acquiring request (codes "s") 5) opened

abbrev left : Hub
left = close_client world 8 be leased

opened-may : (is_client 8 opened || false) ≡ true
unfolding handle connect verify_auth register new_hub elem snapshot_port_state
opened-may = refl

opened-lookup : lookup (codes "s") opened.leases.by_session ≡ none
unfolding handle connect verify_auth register new_hub new_port_manager elem snapshot_port_state
    lookup set_ranges
opened-lookup = refl

-- The handler of no client asks after the client has left.
abbrev nobody : ℕ → Bool
nobody c = false

leased-Reach : Reach nobody (pos 1) (pos 1) leased
leased-Reach =
    next
      (next (next start (connecting world 8 (some (be, codes "k")) refl refl refl))
        (requesting world 8 be (allocating ranges) tt tt refl))
      (requesting world 8 be (acquiring request (codes "s") 5) opened-lookup opened-may refl)

Reach-Hub_example : IsValid nobody 1 1 left
Reach-Hub_example = Reach-Hub (pos 1) (pos 1) (next leased-Reach (disconnecting world 8 be refl))

world-verify_auth : verify_auth world (codes "k") ≡ true
unfolding verify_auth
world-verify_auth = refl

new_hub-elem : elem 3 new_hub.fe_clients ≡ false
unfolding new_hub elem
new_hub-elem = refl

new_hub-length : world.max_fe ≡ pos (suc (length new_hub.fe_clients))
unfolding new_hub
new_hub-length = refl

connect-place_example :
    let left = record new_hub { fe_clients = 3 ∷ new_hub.fe_clients } in
    (connect world 3 (some (fe, codes "k")) new_hub ≡ (left, false))
    × (connect world 4 (some (fe, codes "k")) left ≡ (left, false))
connect-place_example =
    connect-place world world 3 4 (codes "k") (codes "k") new_hub world-verify_auth new_hub-elem
      new_hub-length refl refl

leased-closed : elem 8 leased.closed ≡ false
unfolding handle connect verify_auth register new_hub new_port_manager elem snapshot_port_state
    lookup set_ranges acquire ◌+ℤ◌ ◌-ℤ◌
leased-closed = refl

leased-be_clients : elem 8 leased.be_clients ≡ true
unfolding handle connect verify_auth register new_hub new_port_manager elem snapshot_port_state
    lookup set_ranges acquire ◌+ℤ◌ ◌-ℤ◌
leased-be_clients = refl

close_client_lem_example :
    (elem 8 left.be_clients ≡ false)
    × ((sid : Text) (r : Reservation)
        → lookup sid left.leases.by_session ≡ some r
        → (lookup sid leased.leases.by_session ≡ some r) × ((r.owner == 8) ≡ false))
    × ((port : ℕ)
        → elem port (leased.allocated 8) ≡ true
        → present (left.reaper.pending_kills port) ≡ true)
    × ((u : World) (r : Role) → close_client u 8 r left ≡ left)
close_client_lem_example =
    close_client_lem world 8 leased (Reach-Hub (pos 1) (pos 1) leased-Reach).leases leased-closed
      leased-be_clients
