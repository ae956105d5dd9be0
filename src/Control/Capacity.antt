-- ===== src/Control/Capacity.antt =====
-- v4/control/server.go: the capacity that a pairing is checked against counts occupied ports only.
use relay_x.Prelude.{
  ℕ, ◌≡◌, refl, ap, ◌∙◌, inl, inr, Bool, true, Option, some, List, [], ◌∷◌, Text, arith, put,
}
use relay_x.Prelude.Sorting.{elem, sort}
use relay_x.Errors.{ok}
use relay_x.Status.{PortStatus, reserved, occupied}
use relay_x.Ports.Defs.{
  Pool, Snapshot, is_state, count_port, count_ports, no_ports, snapshot, reservation, allocation,
}
use relay_x.Ports.Valid
use relay_x.Ports.Count.{snapshot_lem}
use relay_x.Control.Protocol.{PairRequest, PairGrant}
use relay_x.Control.Hub.{Hub, Client}
use relay_x.Control.Pairing.{
  owned_ports, pool_occupied_ports, occupied_ports_for_server, remaining_of, try_pair_once,
}
use relay_x.Control.Grant.{Took}
use relay_x.Control.Once.{try_pair_once-Granted}

count_port-occupied :
    (o o' : Option PortStatus) (port : ℕ) (s s' : Snapshot)
    → is_state occupied o ≡ is_state occupied o'
    → s.occupied_ports ≡ s'.occupied_ports
    → (count_port o port s).occupied_ports ≡ (count_port o' port s').occupied_ports
unfolding count_port
count_port-occupied o o' port s s' h k = ground arith

count_ports-occupied :
    (state state' : ℕ → Option PortStatus) (ps : List ℕ) (s s' : Snapshot)
    → ((q : ℕ) → is_state occupied (state q) ≡ is_state occupied (state' q))
    → s.occupied_ports ≡ s'.occupied_ports
    → (count_ports state ps s).occupied_ports ≡ (count_ports state' ps s').occupied_ports
unfolding count_ports
count_ports-occupied state state' [] s s' h k = k
count_ports-occupied state state' (p ∷ ps) s s' h k =
    count_ports-occupied state state' ps (count_port (state p) p s) (count_port (state' p) p s') h
      (count_port-occupied (state p) (state' p) p s s' (h p) k)

owned_ports_same :
    (p p' : Pool) (id : Text) (ports : List ℕ)
    → ((q : ℕ) → elem q ports ≡ true → p.alloc q ≡ p'.alloc q)
    → owned_ports p id ports ≡ owned_ports p' id ports
unfolding owned_ports allocation elem
owned_ports_same p p' id [] h = refl
owned_ports_same p p' id (q ∷ qs) h =
    ground (arith, h q, owned_ports_same p p' id qs (λ r e. h r (ground arith)))

pool_occupied_ports_same :
    (p p' : Pool) (id : Text)
    → Valid.IsValid p
    → p'.ports ≡ p.ports
    → ((q : ℕ) → is_state occupied (p.state q) ≡ is_state occupied (p'.state q))
    → ((q : ℕ) → is_state occupied (p.state q) ≡ true → p.alloc q ≡ p'.alloc q)
    → pool_occupied_ports p id ≡ pool_occupied_ports p' id
unfolding pool_occupied_ports
pool_occupied_ports_same p p' id v e h k =
    owned_ports_same p p' id (snapshot p).occupied_ports
      (λ q m. k q (ground (arith, (snapshot_lem p v).4 occupied q)))
    ∙ ap (owned_ports p' id) lists
  where
    lists : (snapshot p).occupied_ports ≡ (snapshot p').occupied_ports
    lists = rw e (
        ap sort (
          count_ports-occupied p.state p'.state p.ports (no_ports p.kind) (no_ports p'.kind) h
            refl))

-- Taking an idle port changes no server's list of occupied ports.
Took-pool_occupied_ports :
    (need : Bool) (session server client : Text) (now : ℕ) (p p' : Pool) (port : ℕ) (id : Text)
    → Valid.IsValid p
    → Took need session server client now p p' port
    → pool_occupied_ports p id ≡ pool_occupied_ports p' id
Took-pool_occupied_ports need session server client now p p' port id v (inl (_, e, _)) = rw e
Took-pool_occupied_ports need session server client now p p' port id v (inr (_, _, i, e)) = rw e (
    pool_occupied_ports_same p
      (record p {
        state = put p.state port (some reserved);
        alloc = put p.alloc port (some (reservation p port session server client now));
      })
      id v refl (λ q. ground arith) (λ q m. ground arith))

-- A try that makes a grant leaves the remaining capacity of every server as it was: a port counts
-- against a server's `MaxConn` only once both of its data connections are up. So grants made in the
-- meantime are not limited by `MaxConn`. The pools are valid before.
pub remaining_of-try_pair_once :
    (c : Client) (pr : PairRequest) (session : Text) (now : ℕ) (h : Hub) {h' : Hub} {g : PairGrant}
    → Valid.IsValid h.zmq_pool
    → Valid.IsValid h.srt_pool
    → try_pair_once c pr session now h ≡ (h', ok g)
    → (t : Client) → remaining_of h' t ≡ remaining_of h t
unfolding remaining_of occupied_ports_for_server
remaining_of-try_pair_once c pr session now h {h'} {g} z v e t =
    let (s, _, (_, a, b, _, _)) = try_pair_once-Granted c pr session now h z v e in
    rw (
      Took-pool_occupied_ports pr.need_zmq session s.id c.id now h.zmq_pool h'.zmq_pool g.zmq_port
          t.id z a,
      Took-pool_occupied_ports pr.need_srt session s.id c.id now h.srt_pool h'.srt_pool g.srt_port
          t.id v b,
    )
