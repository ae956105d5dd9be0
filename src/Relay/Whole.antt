-- ===== src/Relay/Whole.antt =====
-- v4/control/server.go and v4/relay/tcp_server.go together: a client is paired with a server, both connect
-- to the port of the grant, and their session ends.
use relay_x.Prelude.{
  ℕ, ◌≡◌, refl, sym, ap, ◌∙◌, Bool, true, Map, Option, ==_iff, none, some, inl, inr, Text, arith,
  put,
}
use relay_x.Errors.{ok}
use relay_x.Status.{idle}
use relay_x.Ports.Defs.{Pool, Allocation, reservation}
use relay_x.Ports.Valid
use relay_x.Ports.Reserve.{undo_write}
use relay_x.Control.Protocol.{PairRequest, PairGrant}
use relay_x.Control.Hub.{Hub, Client}
use relay_x.Control.Pairing.{try_pair_once}
use relay_x.Control.Grant.{Took}
use relay_x.Control.Once.{try_pair_once-Granted}
use relay_x.Relay.Tcp.{Server, Session, session_stopped}
use relay_x.Relay.Sessions.{
  Waiting, at_once, server_first, client_first, session_starts, session_ends,
}

-- Nobody is at a port.
pub record IsFree (port : ℕ) (s : Server) : Type 0 where
  pub no_session : s.sessions port ≡ none
  pub no_server : s.pending_s port ≡ none
  pub no_client : s.pending_c port ≡ none

-- The session that a grant promises, of two connections.
abbrev pub promised : PairGrant → ℕ → ℕ → Session
promised g sc ce = record {
  port = g.zmq_port;
  session_id = g.session_id;
  server_id = g.server_id;
  client_id = g.client_id;
  fe = ce;
  be = sc;
}

-- The allocation of the port of a grant.
abbrev pub allocated : Pool → PairGrant → ℕ → Allocation
allocated p g now = reservation p g.zmq_port g.session_id g.server_id g.client_id now

Took-Waiting :
    (g : PairGrant) (now : ℕ) (p : Pool) (s : Server)
    → Took true g.session_id g.server_id g.client_id now p s.pool g.zmq_port
    → IsFree g.zmq_port s
    → Waiting g.zmq_port (allocated p g now) s
Took-Waiting g now p s (inl (e, _, _)) f = cc
Took-Waiting g now p s (inr (_, _, i, e)) f = record {
  alloc = ground arith;
  reserved = ground arith;
  no_session = f.no_session;
  no_server = f.no_server;
  no_client = f.no_client;
}

retook :
    (need : Bool) (s s' r r' c c' : Text) (now : ℕ) (p q q' : Pool) (port : ℕ)
    → need ≡ true
    → s' ≡ s
    → r' ≡ r
    → c' ≡ c
    → q' ≡ q
    → Took need s r c now p q port
    → Took true s' r' c' now p q' port
retook need s s' r r' c c' now p q q' port n e f h k (inl (m, _, _)) = cc
retook need s s' r r' c c' now p q q' port n e f h k (inr (_, l, i, u)) =
    inr (refl, l, i, k ∙ u ∙ rw (e, f, h) refl)

self : (port : ℕ) (m : Map Session) (v : Option Session) → put m port v port ≡ v
self port m v = ground (arith, ==_iff port port)

-- Freeing the port that a try took gives back the pool from before.
freed :
    (g : PairGrant) (now : ℕ) (p q : Pool)
    → Valid.IsValid p
    → Took true g.session_id g.server_id g.client_id now p q g.zmq_port
    → record q { state = put q.state g.zmq_port (some idle); alloc = put q.alloc g.zmq_port none }
      ≡ p
freed g now p q v (inl (e, _, _)) = cc
freed g now p q v (inr (_, _, i, e)) = rw e (undo_write p g.zmq_port (some (allocated p g now)) v i)

-- Where a try pairs a client that asked for a ZMQ port, both pools being valid, and nobody is at the port of
-- the grant: the two connections that the grant lets in, in either order and with nothing in between, start
-- the session that the grant promises; and when that has ended, undisturbed, the pool of the ports is the
-- very pool from before the try, and the rest of the data plane is as before too.
pub session_stopped-try_pair_once :
    (c : Client) (pr : PairRequest) (session : Text) (now : ℕ) (h : Hub) (sc ce : ℕ) (s : Server)
    {h' : Hub} {g : PairGrant}
    → Valid.IsValid h.zmq_pool
    → Valid.IsValid h.srt_pool
    → pr.need_zmq ≡ true
    → try_pair_once c pr session now h ≡ (h', ok g)
    → s.pool ≡ h'.zmq_pool
    → IsFree g.zmq_port s
    → let a = allocated h.zmq_pool g now in
      let joined = server_first g.zmq_port a sc ce s in
      (joined ≡ client_first g.zmq_port a sc ce s)
      × (joined.sessions g.zmq_port ≡ some (promised g sc ce))
      × (session_stopped g.zmq_port g.session_id at_once joined ≡ record s { pool = h.zmq_pool })
session_stopped-try_pair_once c pr session now h sc ce s {h'} {g} z t n e k f =
    let (srv, _, (ge, zmq, _, _, _)) = try_pair_once-Granted c pr session now h z t e in
    let took : Took true g.session_id g.server_id g.client_id now h.zmq_pool s.pool g.zmq_port =
      retook _ _ _ _ _ _ _ now h.zmq_pool _ _ g.zmq_port n (ap (λ x. x.session_id) ge)
        (ap (λ x. x.server_id) ge) (ap (λ x. x.client_id) ge) k zmq in
    let a = allocated h.zmq_pool g now in
    let w = Took-Waiting g now h.zmq_pool s took f in
    let (first, second) = session_starts g.zmq_port a sc ce s w in
    (
      first ∙ sym second,
      ap (λ (x : Server). x.sessions g.zmq_port) first
          ∙ self g.zmq_port s.sessions (some (promised g sc ce)),
      ap (session_stopped g.zmq_port g.session_id at_once) first
          ∙ session_ends g.zmq_port a sc ce s w
          ∙ ap (λ q. record s { pool = q }) (freed g now h.zmq_pool s.pool z took),
    )
