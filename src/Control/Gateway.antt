-- ===== src/Control/Gateway.antt =====
-- v4/control/server.go: the clients of the hub and the handlers that serve them, whatever happens in any
-- order.
use relay_x.Prelude.{
  ℕ, ◌≡◌, ◌≢◌, refl, sym, ap, ◌∙◌, Bool, Option, none, some, Text, put, arith, ◌==◌, if◌then◌else◌,
  codes,
}
use relay_x.Prelude.Int.{ℤ}
use relay_x.Prelude.Assoc.{lookup, text_key, number_key, lookup-insert, lookup-delete}
use relay_x.Errors.{Err, nil, plain, wrapped, coded, code, error_text, code_bad_request}
use relay_x.Ports.Defs.{Pool}
use relay_x.Ports.Valid as Ports
use relay_x.Ports.Lifecycle.{Op, step, step-IsValid}
use relay_x.Control.Protocol.{
  PairRequest, Incoming, register, pair_request, bad_pair_request, unread, register_ok,
}
use relay_x.Control.Hub.{Hub, Client, new_client, admitted, validate_and_register, unregister}
use relay_x.Control.Pairing.{try_pair_once}
use relay_x.Control.Register as Maps
use relay_x.Control.Register.{register-IsValid, unregister-IsValid, validate_and_register_iff}
use relay_x.Control.Kept.{Kept, try_pair_once-Kept, Kept-IsValid}
use relay_x.Control.Serving.{
  Written, answer, Gateway, new_gateway, close_conn, send, refused, registered, handle_conn,
  handle_message, handler_ended, broadcast_status, handle_http,
}
use relay_x.Control.Online.{
  IsValid, AsBefore-IsValid, close_conn-AsBefore, send-AsBefore, refused-AsBefore,
  broadcast_status-AsBefore, handle_http-AsBefore, handle_message-AsBefore,
}

-- A registration that fails leaves the hub as it was.
refused-IsValid :
    (broken : ℕ → Bool) (conn number : ℕ) (text : Text) (h : Hub) (s : Gateway)
    → h ≡ s.hub
    → IsValid s
    → IsValid (refused broken conn number text (record s { hub = h }))
refused-IsValid broken conn number text h s e v =
    let s1 = record s { hub = h } in
    let (f, g) = refused-AsBefore broken conn number text s1 in
    AsBefore-IsValid s (refused broken conn number text s1) (f ∙ e, g) v

module _ (c : Client) (h h' : Hub) (r : validate_and_register c h ≡ (h', nil)) where
  added-clients :
      (conn : ℕ)
      → lookup conn h'.clients
        ≡ (if c.conn == conn then some (admitted c) else lookup conn h.clients)
  unfolding validate_and_register
  added-clients conn = ground (arith, lookup-insert c.conn conn (admitted c) h.clients)

  added-pools : (h'.zmq_pool ≡ h.zmq_pool) × (h'.srt_pool ≡ h.srt_pool)
  unfolding validate_and_register
  added-pools = (ground arith, ground arith)

module _ (c : Client) (h : Hub) where
  ended-clients :
      (conn : ℕ)
      → lookup conn (unregister c h).clients
        ≡ (if c.conn == conn then none else lookup conn h.clients)
  unfolding unregister
  ended-clients conn = ground (arith, lookup-delete c.conn conn h.clients)

  ended-pools : ((unregister c h).zmq_pool ≡ h.zmq_pool) × ((unregister c h).srt_pool ≡ h.srt_pool)
  unfolding unregister
  ended-pools = (ground arith, ground arith)

registered-IsValid :
    (broken : ℕ → Bool) (c : Client) (h : Hub) (e : Err) (s : Gateway)
    → validate_and_register c s.hub ≡ (h, e)
    → (e ≢ nil → h ≡ s.hub)
    → Maps.IsValid h
    → IsValid s
    → IsValid (registered broken c (h, e) s)
registered-IsValid broken c h nil s r f k v =
    let s1 = record s { hub = h; serving = put s.serving c.conn (some (admitted c)) } in
    let (z, t) = added-pools c s.hub h r in
    let v1 : IsValid s1 = record {
      maps = k;
      zmq = rw z v.zmq;
      srt = rw t v.srt;
      served = λ conn. ground (arith, added-clients c s.hub h r conn, v.served conn);
    } in
    AsBefore-IsValid s1 (send broken c.conn (answer register_ok) s1)
      (send-AsBefore broken c.conn (answer register_ok) s1) v1
registered-IsValid broken c h (plain m) s r f k v =
    refused-IsValid broken c.conn (code (plain m)) (error_text (plain m)) h s (f (λ q. cc)) v
registered-IsValid broken c h (wrapped m e) s r f k v =
    refused-IsValid broken c.conn (code (wrapped m e)) (error_text (wrapped m e)) h s (f (λ q. cc))
      v
registered-IsValid broken c h (coded n m e) s r f k v =
    refused-IsValid broken c.conn (code (coded n m e)) (error_text (coded n m e)) h s (f (λ q. cc))
      v

handle_conn-IsValid :
    (broken : ℕ → Bool) (conn : ℕ) (first : Option Incoming) (s : Gateway)
    → s.serving conn ≡ none
    → IsValid s
    → IsValid (handle_conn broken conn first s)
unfolding handle_conn
handle_conn-IsValid broken conn none s n v =
    AsBefore-IsValid s (close_conn conn s) (close_conn-AsBefore conn s) v
handle_conn-IsValid broken conn (some (register reg)) s n v =
    let c = new_client conn reg in
    let out = validate_and_register c s.hub in
    registered-IsValid broken c out.0 out.1 s refl (validate_and_register_iff c s.hub).1
      (register-IsValid c s.hub (sym (v.served conn) ∙ n) v.maps) v
handle_conn-IsValid broken conn (some (pair_request pr)) s n v =
    refused-IsValid broken conn code_bad_request (codes "first message must be register") s.hub s
      refl v
handle_conn-IsValid broken conn (some bad_pair_request) s n v =
    refused-IsValid broken conn code_bad_request (codes "first message must be register") s.hub s
      refl v
handle_conn-IsValid broken conn (some unread) s n v =
    refused-IsValid broken conn code_bad_request (codes "first message must be register") s.hub s
      refl v

handler_ended-IsValid :
    (c : Client) (s : Gateway) → s.serving c.conn ≡ some c → IsValid s → IsValid (handler_ended c s)
unfolding handler_ended
handler_ended-IsValid c s n v =
    let h = unregister c s.hub in
    let s1 = record s { hub = h; serving = put s.serving c.conn none } in
    let v1 : IsValid s1 = record {
      maps = unregister-IsValid c s.hub (sym (v.served c.conn) ∙ n) v.maps;
      zmq = rw (ended-pools c s.hub).0 v.zmq;
      srt = rw (ended-pools c s.hub).1 v.srt;
      served = λ conn. ground (arith, ended-clients c s.hub conn, v.served conn);
    } in
    AsBefore-IsValid s1 (close_conn c.conn s1) (close_conn-AsBefore c.conn s1) v1

-- What happens to the hub: a new connection begins, a message comes on one that is served, its handler
-- ends, a pairing loop makes a try or answers, the status is broadcast or asked for, or one of the pools is
-- called, by the data plane or the sweep of stale reservations.
pub data Happens (s t : Gateway) : Type 0 where
  connecting :
      (broken : ℕ → Bool) (conn : ℕ) (first : Option Incoming)
      → s.serving conn ≡ none
      → t ≡ handle_conn broken conn first s
      → Happens s t
  receiving :
      (broken : ℕ → Bool) (fresh : Text) (c : Client) (m : Incoming)
      → s.serving c.conn ≡ some c
      → t ≡ handle_message broken fresh c m s
      → Happens s t
  ending : (c : Client) → s.serving c.conn ≡ some c → t ≡ handler_ended c s → Happens s t
  trying :
      (c : Client) (pr : PairRequest) (session : Text) (now : ℕ)
      → t ≡ record s { hub = (try_pair_once c pr session now s.hub).0 }
      → Happens s t
  answering : (broken : ℕ → Bool) (conn : ℕ) (m : Written) → t ≡ send broken conn m s → Happens s t
  telling : (broken : ℕ → Bool) (now : ℕ) → t ≡ broadcast_status broken now s → Happens s t
  browsing : (conn now : ℕ) (line : Option Text) → t ≡ handle_http conn now line s → Happens s t
  using_zmq :
      (op : Op)
      → t ≡ record s { hub = record s.hub { zmq_pool = step op s.hub.zmq_pool } }
      → Happens s t
  using_srt :
      (op : Op)
      → t ≡ record s { hub = record s.hub { srt_pool = step op s.hub.srt_pool } }
      → Happens s t

pub data Reach : Gateway → Type 0 where
  start :
      (max_connections : ℤ) (zmq srt : Pool) (now : ℕ)
      → Ports.IsValid zmq
      → Ports.IsValid srt
      → Reach (new_gateway max_connections zmq srt now)
  next : {s t : Gateway} → Reach s → Happens s t → Reach t

-- The hub with other pools, which are valid.
Kept-IsValid_gateway :
    (h : Hub) (s : Gateway) → Kept s.hub h → IsValid s → IsValid (record s { hub = h })
Kept-IsValid_gateway h s k v = record {
  maps = Kept-IsValid s.hub h k v.maps;
  zmq = k.zmq;
  srt = k.srt;
  served = λ conn. v.served conn ∙ ap (λ (x : Hub). lookup conn x.clients) (sym k.same);
}

Happens-IsValid : {s t : Gateway} → Happens s t → IsValid s → IsValid t
Happens-IsValid {s} (connecting broken conn first n e) v =
    rw e (handle_conn-IsValid broken conn first s n v)
Happens-IsValid {s} (receiving broken fresh c m n e) v = rw e (
    AsBefore-IsValid s (handle_message broken fresh c m s)
      (handle_message-AsBefore broken fresh c m s) v)
Happens-IsValid {s} (ending c n e) v = rw e (handler_ended-IsValid c s n v)
Happens-IsValid {s} (trying c pr session now e) v = rw e (
    Kept-IsValid_gateway (try_pair_once c pr session now s.hub).0 s
      (try_pair_once-Kept c pr session now s.hub v.zmq v.srt) v)
Happens-IsValid {s} (answering broken conn m e) v =
    rw e (AsBefore-IsValid s (send broken conn m s) (send-AsBefore broken conn m s) v)
Happens-IsValid {s} (telling broken now e) v =
    rw e (
      AsBefore-IsValid s (broadcast_status broken now s) (broadcast_status-AsBefore broken now s) v)
Happens-IsValid {s} (browsing conn now line e) v =
    rw e (AsBefore-IsValid s (handle_http conn now line s) (handle_http-AsBefore conn now line s) v)
Happens-IsValid {s} (using_zmq op e) v = rw e (
    Kept-IsValid_gateway (record s.hub { zmq_pool = step op s.hub.zmq_pool }) s
      (record { same = refl; zmq = step-IsValid op s.hub.zmq_pool v.zmq; srt = v.srt }) v)
Happens-IsValid {s} (using_srt op e) v = rw e (
    Kept-IsValid_gateway (record s.hub { srt_pool = step op s.hub.srt_pool }) s
      (record { same = refl; zmq = v.zmq; srt = step-IsValid op s.hub.srt_pool v.srt }) v)

-- From a new hub with valid pools, after anything that happens to it in any order: the clients of the hub
-- are exactly those whose handlers are in their loop, each under its connection, so that none is left
-- behind; the three maps of clients agree with each other and hold at most as many as the configuration
-- allows; and both pools are valid.
pub Reach-Gateway : {s : Gateway} → Reach s → IsValid s
unfolding new_gateway lookup
Reach-Gateway (start max_connections zmq srt now z t) = record {
  maps = record { bounded = omega arith; servers = λ id. tt; fe = λ id. tt; clients = λ conn. tt };
  zmq = z;
  srt = t;
  served = λ conn. refl;
}
Reach-Gateway (next r h) = Happens-IsValid h (Reach-Gateway r)
