-- ===== src/V1/Hub/Messages.antt =====
-- v1/control/hub.go: the messages that the hub handles. The outcome of decoding a message is a request.
use relay_x.Prelude.{
  ℕ, Bool, true, false, ◌&&◌, Option, none, some, List, [], ◌∷◌, ◌++◌, Text, codes, map, ◌==◌,
  if◌then◌else◌,
}
use relay_x.Prelude.Int.{ℤ, pos, negsuc}
use relay_x.Prelude.Sorting.{elem}
use relay_x.Errors.{Result, ok, err, error_text}
use relay_x.Leases.{PortAcquire, PortGrant}
use relay_x.Slots.{Role, be, fe, unknown}
use relay_x.Central.{Clock}
use relay_x.Central.Ranges.{PortAlloc}
use relay_x.V1.Leases.{
  PortManager, set_ranges, range_ports, refusal, acquire, acquire_from_ready, release,
}
use relay_x.V1.Relay.{RelayServer, start_relay_port, is_port_busy, snapshot_port_state, set_at}
use relay_x.V1.Reaper.{cancel_kill}
use relay_x.V1.Hub.{
  port_alloc, port_grant, no_grant, key_exchange, port_release, pong, World, Hub, send,
  broadcast_to_role, with_snapshot, state_sent,
}

pub data Request : Type 0 where
  pinging : Clock → ℕ → ℕ → Request
  exchanging : Text → Request
  allocating : PortAlloc → Request
  acquiring : PortAcquire → Text → ℕ → Request
  releasing : Text → Request
  querying : Request
  unreadable : Request

abbrev pub is_zero : ℤ → Bool
is_zero (pos n) = n == 0
is_zero (negsuc n) = false

-- The ranges of the configuration, unless they are all 0.
abbrev pub ranges_of : World → PortAlloc → PortAlloc
ranges_of w p =
    if is_zero w.config.zmq_start_port
      && is_zero w.config.zmq_end_port
      && is_zero w.config.srt_start_port
      && is_zero w.config.srt_end_port
    then p
    else w.config

-- The ports that can listen; a negative one cannot.
abbrev pub listenable : List ℤ → List ℕ
listenable [] = []
listenable (pos n ∷ ps) = n ∷ listenable ps
listenable (negsuc n ∷ ps) = listenable ps

abbrev pub start_ports : World → Text → List ℕ → RelayServer → RelayServer
start_ports w protocol [] relay = relay
start_ports w protocol (p ∷ ps) relay =
    start_ports w protocol ps (start_relay_port p protocol (w.listen p) relay).0

-- A back end sets the ranges: its ports are started, and kills of them cancelled.
abbrev pub allocated_to : World → ℕ → PortAlloc → Hub → Hub
allocated_to w c p s =
    let zmq = listenable (range_ports p.zmq_start_port p.zmq_end_port) in
    let srt = listenable (range_ports p.srt_start_port p.srt_end_port) in
    let relay = start_ports w (codes "srt") srt (start_ports w (codes "zmq") zmq s.reaper.relay) in
    broadcast_to_role w fe (port_alloc p) (record s {
      leases = (set_ranges p s.leases).0;
      allocated = set_at s.allocated c (zmq ++ srt);
      reaper = cancel_kill (zmq ++ srt) (record s.reaper { relay = relay });
    })

abbrev pub other_side : Role → Role
other_side be = fe
other_side fe = be
other_side unknown = be

abbrev pub granted : World → ℕ → Role → PortAcquire → ℕ → PortManager × Result PortGrant → Hub → Hub
granted w c r req now (pm, err e) s =
    send w c (no_grant req.request_id now (error_text e)) (record s { leases = pm })
granted w c r req now (pm, ok g) s =
    broadcast_to_role w (other_side r) (port_grant g)
      (send w c (port_grant g) (record s { leases = pm }))

abbrev pub acquired_ready : World → ℕ → PortAcquire → Text → ℕ → Option Text → Hub → Hub
acquired_ready w c req sid now (some text) s =
    granted w c fe req now
      (acquire_from_ready (some c) req w.lease_order sid now (λ p. is_port_busy p s.reaper.relay) []
        [] s.leases)
      s
acquired_ready w c req sid now none s =
    with_snapshot w
      (λ n t.
        granted w c fe req now
          (acquire_from_ready (some c) req w.lease_order sid now
            (λ p. is_port_busy p t.reaper.relay) (map pos n.zmq_ready_ports)
            (map pos n.srt_ready_ports) t.leases)
          t)
      s

abbrev pub acquired : World → ℕ → Role → PortAcquire → Text → ℕ → Hub → Hub
acquired w c fe req sid now s = acquired_ready w c req sid now (refusal (some c) req) s
acquired w c be req sid now s =
    granted w c be req now
      (acquire (some c) req w.lease_order sid now (λ p. is_port_busy p s.reaper.relay) s.leases) s
acquired w c unknown req sid now s = s

abbrev pub given_back : World → Role → Text → PortManager × Bool → Hub → Hub
given_back w r sid (pm, false) s = record s { leases = pm }
given_back w r sid (pm, true) s =
    broadcast_to_role w (other_side r) (port_release sid) (record s { leases = pm })

-- A message of a client, in the loop of `handleConnection`.
unfoldable pub handle : World → ℕ → Role → Request → Hub → Hub
unfolding broadcast_to_role start_relay_port acquire acquire_from_ready snapshot_port_state
    set_ranges release cancel_kill is_port_busy error_text elem
handle w c r (pinging p recv now) s =
    send w c (pong (record p { server_recv_time = recv; server_send_time = now })) s
handle w c be (exchanging p) s = broadcast_to_role w fe (key_exchange p) s
handle w c fe (exchanging p) s = s
handle w c unknown (exchanging p) s = s
handle w c be (allocating p) s = allocated_to w c (ranges_of w p) s
handle w c fe (allocating p) s = s
handle w c unknown (allocating p) s = s
handle w c r (acquiring req sid now) s = acquired w c r req sid now s
handle w c be (releasing sid) s = given_back w be sid (release (some c) sid s.leases) s
handle w c fe (releasing sid) s = given_back w fe sid (release (some c) sid s.leases) s
handle w c unknown (releasing sid) s = s
handle w c r querying s = state_sent w c s
handle w c r unreadable s = s
