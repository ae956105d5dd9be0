-- ===== src/V1/Hub/Handling.antt =====
-- v1/control/hub.go: what any messages, connections, disconnections, timers and sweeps leave true.
use relay_x.Prelude.{
  ◌||◌, ℕ, ◌≡◌, refl, inl, inr, Bool, true, false, Option, none, some, List, [], ◌∷◌, Text,
  if◌then◌else◌, codes, map, ◌++◌,
}
use relay_x.Prelude.Int.{ℤ, pos}
use relay_x.Prelude.Assoc.{lookup, text_key, number_key}
use relay_x.Errors.{Result, ok, err, error_text}
use relay_x.Leases.{PortAcquire, PortGrant}
use relay_x.Slots.{Role, be, fe, unknown}
use relay_x.Central.Ranges.{PortAlloc}
use relay_x.V1.Leases.{
  Reservation, PortManager, set_ranges, range_ports, acquire, acquire_from_ready, release, refusal,
}
use relay_x.V1.Leases.Valid as Maps
use relay_x.V1.Leases.Outcome.{Outcome, Outcome-before, acquire-Outcome}
use relay_x.V1.Leases.Owner.{release_before}
use relay_x.V1.Leases.Life as Calls
use relay_x.V1.Leases.Life.{Call-IsValid}
use relay_x.V1.Relay.{RelayServer, set_at, is_port_busy}
use relay_x.V1.Relay.Valid as Ports
use relay_x.V1.Relay.Valid.{Act, act, starting, act-IsValid}
use relay_x.V1.Reaper.{cancel_kill}
use relay_x.V1.Hub.{
  World, Hub, send, with_relay, port_alloc, port_grant, no_grant, key_exchange, port_release, pong,
}
use relay_x.V1.Hub.Messages.{
  Request, pinging, exchanging, allocating, acquiring, releasing, querying, unreadable, ranges_of,
  listenable, start_ports, allocated_to, granted, acquired_ready, acquired, given_back, handle,
  other_side,
}
use relay_x.V1.Hub.Valid.{
  is_client, IsValid, send-IsValid, reaper-IsValid, broadcast-IsValid, with_snapshot-IsValid,
  state_sent-IsValid, leases-IsValid, cancel_kill-relay,
}

start_ports-IsValid :
    (w : World) (protocol : Text) (ps : List ℕ) (t : RelayServer)
    → Ports.IsValid t
    → Ports.IsValid (start_ports w protocol ps t)
start_ports-IsValid w protocol [] t v = v
start_ports-IsValid w protocol (p ∷ ps) t v =
    start_ports-IsValid w protocol ps (act (starting p protocol (w.listen p)) t)
      (act-IsValid (starting p protocol (w.listen p)) t v)

set_ranges_before :
    (p : PortAlloc) (pm : PortManager) (sid : Text) (r : Reservation)
    → lookup sid (set_ranges p pm).0.by_session ≡ some r
    → lookup sid pm.by_session ≡ some r
unfolding set_ranges
set_ranges_before p pm sid r h = h

-- A new session id is one that no lease has.
abbrev pub IsNew : Request → Hub → Type 0
IsNew (acquiring req sid now) s = lookup sid s.leases.by_session ≡ none
IsNew _ s = Unit {0}

-- A client of the hub may ask for a lease, and so may a client that has left, where it is one of `late`: its
-- handler goes on with what it has read, as long as its connection gives more.
abbrev pub MayAsk : (ℕ → Bool) → ℕ → Request → Hub → Type 0
MayAsk late c (acquiring req sid now) s = (is_client c s || late c) ≡ true
MayAsk late c _ s = Unit {0}

module _ {late : ℕ → Bool} (few_fe few_be : ℕ) where
  granted-IsValid :
      (w : World) (c : ℕ) (r : Role) (req : PortAcquire) (order : List Text) (sid : Text) (now : ℕ)
      (busy : ℕ → Bool) (candidates : List ℤ) (out : PortManager × Result PortGrant) (s : Hub)
      → Outcome (some c) req order sid now busy candidates s.leases out
      → Maps.IsValid out.0
      → (is_client c s || late c) ≡ true
      → IsValid late few_fe few_be s
      → IsValid late few_fe few_be (granted w c r req now out s)
  granted-IsValid w c r req order sid now busy candidates out s o k m v =
      let v1 : IsValid late few_fe few_be (record s { leases = out.0 }) =
        leases-IsValid few_fe few_be out.0 s k
          (λ t q h. elim (Outcome-before c req order sid now busy candidates s.leases out t q o h) [
            | inl b ↦ inl b
            | inr e ↦ inr (rw e m)
          ])
          v in
      go out v1
    where
      go :
          (out : PortManager × Result PortGrant)
          → IsValid late few_fe few_be (record s { leases = out.0 })
          → IsValid late few_fe few_be (granted w c r req now out s)
      go (pm, err e) v1 =
          send-IsValid few_fe few_be w c (no_grant req.request_id now (error_text e))
            (record s { leases = pm }) v1
      go (pm, ok g) v1 =
          broadcast-IsValid few_fe few_be w (other_side r) (port_grant g)
            (send w c (port_grant g) (record s { leases = pm }))
            (send-IsValid few_fe few_be w c (port_grant g) (record s { leases = pm }) v1)

  ready-IsValid :
      (w : World) (c : ℕ) (req : PortAcquire) (sid : Text) (now : ℕ) (zmq srt : List ℤ) (s : Hub)
      → lookup sid s.leases.by_session ≡ none
      → (is_client c s || late c) ≡ true
      → IsValid late few_fe few_be s
      → IsValid late few_fe few_be (
          granted w c fe req now
            (acquire_from_ready
              (some c)
              req
              w.lease_order
              sid
              now
              (λ p. is_port_busy p s.reaper.relay)
              zmq
              srt
              s.leases)
            s)
  ready-IsValid w c req sid now zmq srt s f m v =
      let busy = λ (p : ℕ). is_port_busy p s.reaper.relay in
      granted-IsValid w c fe req w.lease_order sid now busy (if req.need_zmq then zmq else srt)
        (acquire_from_ready (some c) req w.lease_order sid now busy zmq srt s.leases) s
        (acquire-Outcome (some c) req w.lease_order sid now busy zmq srt s.leases).1
        (Call-IsValid (Calls.acquiring_ready (some c) req w.lease_order sid now busy zmq srt f refl)
          v.leases)
        m v

  acquired_ready-IsValid :
      (w : World) (c : ℕ) (req : PortAcquire) (sid : Text) (now : ℕ) (text : Option Text) (s : Hub)
      → lookup sid s.leases.by_session ≡ none
      → (is_client c s || late c) ≡ true
      → IsValid late few_fe few_be s
      → IsValid late few_fe few_be (acquired_ready w c req sid now text s)
  acquired_ready-IsValid w c req sid now (some text) s f m v =
      ready-IsValid w c req sid now [] [] s f m v
  acquired_ready-IsValid w c req sid now none s f m v =
      with_snapshot-IsValid few_fe few_be w
        (λ n t.
          granted w c fe req now
            (acquire_from_ready (some c) req w.lease_order sid now
              (λ p. is_port_busy p t.reaper.relay) (map pos n.zmq_ready_ports)
              (map pos n.srt_ready_ports) t.leases)
            t)
        s
        (λ n relay k.
          ready-IsValid w c req sid now (map pos n.zmq_ready_ports) (map pos n.srt_ready_ports)
            (with_relay relay s) f m k)
        v

  acquired-IsValid :
      (w : World) (c : ℕ) (r : Role) (req : PortAcquire) (sid : Text) (now : ℕ) (s : Hub)
      → lookup sid s.leases.by_session ≡ none
      → (is_client c s || late c) ≡ true
      → IsValid late few_fe few_be s
      → IsValid late few_fe few_be (acquired w c r req sid now s)
  acquired-IsValid w c fe req sid now s f m v =
      acquired_ready-IsValid w c req sid now (refusal (some c) req) s f m v
  acquired-IsValid w c be req sid now s f m v =
      let busy = λ (p : ℕ). is_port_busy p s.reaper.relay in
      granted-IsValid w c be req w.lease_order sid now busy
        (if req.need_zmq then s.leases.zmq_ports else s.leases.srt_ports)
        (acquire (some c) req w.lease_order sid now busy s.leases) s
        (acquire-Outcome (some c) req w.lease_order sid now busy [] [] s.leases).0
        (Call-IsValid (Calls.acquiring (some c) req w.lease_order sid now busy f refl) v.leases) m v
  acquired-IsValid w c unknown req sid now s f m v = v

  given_back-IsValid :
      (w : World) (c : ℕ) (r : Role) (sid : Text) (s : Hub)
      → IsValid late few_fe few_be s
      → IsValid late few_fe few_be (given_back w r sid (release (some c) sid s.leases) s)
  given_back-IsValid w c r sid s v = go (release (some c) sid s.leases) (
      leases-IsValid few_fe few_be (release (some c) sid s.leases).0 s
        (Call-IsValid (Calls.releasing (some c) sid refl) v.leases)
        (λ t q h. inl (release_before (some c) sid s.leases t q h)) v)
    where
      go :
          (out : PortManager × Bool)
          → IsValid late few_fe few_be (record s { leases = out.0 })
          → IsValid late few_fe few_be (given_back w r sid out s)
      go (pm, false) k = k
      go (pm, true) k =
          broadcast-IsValid few_fe few_be w (other_side r) (port_release sid)
            (record s { leases = pm }) k

  allocated_to-IsValid :
      (w : World) (c : ℕ) (p : PortAlloc) (s : Hub)
      → IsValid late few_fe few_be s
      → IsValid late few_fe few_be (allocated_to w c p s)
  allocated_to-IsValid w c p s v =
      let zmq = listenable (range_ports p.zmq_start_port p.zmq_end_port) in
      let srt = listenable (range_ports p.srt_start_port p.srt_end_port) in
      let relay =
        start_ports w (codes "srt") srt (start_ports w (codes "zmq") zmq s.reaper.relay) in
      let started =
        start_ports-IsValid w (codes "srt") srt (start_ports w (codes "zmq") zmq s.reaper.relay)
          (start_ports-IsValid w (codes "zmq") zmq s.reaper.relay v.ports) in
      let s1 = record s { leases = (set_ranges p s.leases).0 } in
      let v1 : IsValid late few_fe few_be s1 =
        leases-IsValid few_fe few_be (set_ranges p s.leases).0 s
          (Call-IsValid (Calls.setting p refl) v.leases)
          (λ t q h. inl (set_ranges_before p s.leases t q h)) v in
      let s2 = record s1 {
        reaper = cancel_kill (zmq ++ srt) (record s.reaper { relay = relay });
      } in
      let v2 : IsValid late few_fe few_be s2 =
        reaper-IsValid few_fe few_be s1
          (cancel_kill (zmq ++ srt) (record s.reaper { relay = relay })) v1
          (rw (cancel_kill-relay (zmq ++ srt) (record s.reaper { relay = relay })) started) in
      broadcast-IsValid few_fe few_be w fe (port_alloc p)
        (record s2 { allocated = set_at s.allocated c (zmq ++ srt) })
        (record {
          leases = v2.leases;
          ports = v2.ports;
          owned = v2.owned;
          fe_fit = v2.fe_fit;
          be_fit = v2.be_fit;
        })

  pub handle-IsValid :
      (w : World) (c : ℕ) (r : Role) (q : Request) (s : Hub)
      → IsNew q s
      → MayAsk late c q s
      → IsValid late few_fe few_be s
      → IsValid late few_fe few_be (handle w c r q s)
  unfolding handle
  handle-IsValid w c r (pinging p recv now) s f m v =
      send-IsValid few_fe few_be w c
        (pong (record p { server_recv_time = recv; server_send_time = now })) s v
  handle-IsValid w c be (exchanging p) s f m v =
      broadcast-IsValid few_fe few_be w fe (key_exchange p) s v
  handle-IsValid w c fe (exchanging p) s f m v = v
  handle-IsValid w c unknown (exchanging p) s f m v = v
  handle-IsValid w c be (allocating p) s f m v = allocated_to-IsValid w c (ranges_of w p) s v
  handle-IsValid w c fe (allocating p) s f m v = v
  handle-IsValid w c unknown (allocating p) s f m v = v
  handle-IsValid w c r (acquiring req sid now) s f m v = acquired-IsValid w c r req sid now s f m v
  handle-IsValid w c be (releasing sid) s f m v = given_back-IsValid w c be sid s v
  handle-IsValid w c fe (releasing sid) s f m v = given_back-IsValid w c fe sid s v
  handle-IsValid w c unknown (releasing sid) s f m v = v
  handle-IsValid w c r querying s f m v = state_sent-IsValid few_fe few_be w c s v
  handle-IsValid w c r unreadable s f m v = v
