-- ===== src/Control/Online.antt =====
-- v4/control/server.go: what the handlers, the pairing loops, the broadcasts and the data plane keep true of
-- the hub together.
use relay_x.Prelude.{
  ℕ, ◌≡◌, refl, ◌∙◌, Bool, false, ◌||◌, Option, none, some, List, [], ◌∷◌, Text, if◌then◌else◌,
  if_both, text_eq, trim_space, codes,
}
use relay_x.Prelude.Assoc.{lookup, text_key, number_key}
use relay_x.Prelude.Sorting.{elem}
use relay_x.Errors.{code_bad_request}
use relay_x.Ports.Valid as Ports
use relay_x.Control.Protocol.{
  Incoming, register, pair_request, bad_pair_request, unread, error, register_error,
}
use relay_x.Control.Hub.{Client, port_state_payload}
use relay_x.Control.Pairing.{Handled, replies, starts, handle_pair_request, values}
use relay_x.Control.Register as Maps
use relay_x.Control.Register.{register-IsValid, unregister-IsValid, validate_and_register_iff}
use relay_x.Control.Serving.{
  Written, answer, statuses, port_states, Gateway, close_conn, write_to, send, refused, handled,
  handle_message, open_conns, send_each, broadcast, statuses_of, broadcast_status, second_part,
  handle_http, not_found,
}

-- The maps and the pools are valid, and the clients of the hub are those whose handlers run.
pub record IsValid (s : Gateway) : Type 0 where
  pub maps : Maps.IsValid s.hub
  pub zmq : Ports.IsValid s.hub.zmq_pool
  pub srt : Ports.IsValid s.hub.srt_pool
  pub served : (conn : ℕ) → s.serving conn ≡ lookup conn s.hub.clients

-- Whatever keeps the hub and the handlers.
abbrev pub AsBefore : Gateway → Gateway → Type 0
AsBefore s t = (t.hub ≡ s.hub) × (t.serving ≡ s.serving)

pub AsBefore-IsValid : (s t : Gateway) → AsBefore s t → IsValid s → IsValid t
AsBefore-IsValid s t (e, f) v = record {
  maps = rw e v.maps;
  zmq = rw e v.zmq;
  srt = rw e v.srt;
  served = λ conn. rw (e, f) (v.served conn);
}

pub close_conn-AsBefore : (conn : ℕ) (s : Gateway) → AsBefore s (close_conn conn s)
close_conn-AsBefore conn s = if_both (AsBefore s) (elem conn s.closed) (refl, refl) (refl, refl)

pub send-AsBefore :
    (broken : ℕ → Bool) (conn : ℕ) (m : Written) (s : Gateway) → AsBefore s (send broken conn m s)
send-AsBefore broken conn m s =
    if_both (AsBefore s) (elem conn s.closed || broken conn) (refl, refl) (refl, refl)

join : (s t u : Gateway) → AsBefore s t → AsBefore t u → AsBefore s u
join s t u (a, b) (c, d) = (c ∙ a, d ∙ b)

pub refused-AsBefore :
    (broken : ℕ → Bool) (conn number : ℕ) (text : Text) (s : Gateway)
    → AsBefore s (refused broken conn number text s)
refused-AsBefore broken conn number text s =
    let m = answer (register_error number text) in
    let t = send broken conn m s in
    join s t (close_conn conn t) (send-AsBefore broken conn m s)
      (close_conn-AsBefore conn (send broken conn m s))

send_each-AsBefore :
    (broken : ℕ → Bool) (conns : List ℕ) (m : Written) (s : Gateway)
    → AsBefore s (send_each broken conns m s)
unfolding send_each
send_each-AsBefore broken [] m s = (refl, refl)
send_each-AsBefore broken (conn ∷ conns) m s =
    let t = if elem conn s.closed || broken conn then close_conn conn s else write_to conn m s in
    join s t (send_each broken conns m t)
      (if_both (AsBefore s) (elem conn s.closed || broken conn) (close_conn-AsBefore conn s)
        (refl, refl))
      (send_each-AsBefore broken conns m t)

broadcast-AsBefore :
    (broken : ℕ → Bool) (m : Written) (s : Gateway) → AsBefore s (broadcast broken m s)
unfolding broadcast
broadcast-AsBefore broken m s =
    send_each-AsBefore broken (open_conns s.closed (values s.hub.clients)) m s

pub broadcast_status-AsBefore :
    (broken : ℕ → Bool) (now : ℕ) (s : Gateway) → AsBefore s (broadcast_status broken now s)
unfolding broadcast_status
broadcast_status-AsBefore broken now s =
    let s1 = record s { last_broadcast = now } in
    let m = statuses (statuses_of s.hub (values s.hub.servers)) in
    let sent = broadcast broken m s1 in
    let (e, f) = broadcast-AsBefore broken m s1 in
    let (g, h) = broadcast-AsBefore broken (port_states (port_state_payload false sent.hub)) sent in
    (g ∙ e, h ∙ f)

pub handle_http-AsBefore :
    (conn now : ℕ) (line : Option Text) (s : Gateway) → AsBefore s (handle_http conn now line s)
unfolding handle_http
handle_http-AsBefore conn now none s = close_conn-AsBefore conn s
handle_http-AsBefore conn now (some line) s =
    if_both (AsBefore s) (text_eq (second_part (trim_space line)) (codes "/status"))
      (close_conn-AsBefore conn _) (close_conn-AsBefore conn (write_to conn not_found s))

pub handle_message-AsBefore :
    (broken : ℕ → Bool) (fresh : Text) (c : Client) (m : Incoming) (s : Gateway)
    → AsBefore s (handle_message broken fresh c m s)
unfolding handle_message
handle_message-AsBefore broken fresh c (register reg) s = (refl, refl)
handle_message-AsBefore broken fresh c (pair_request pr) s = go (handle_pair_request fresh c pr)
  where
    go : (h : Handled) → AsBefore s (handled broken h s)
    go (replies conn m) = send-AsBefore broken conn (answer m) s
    go (starts d q) = (refl, refl)
handle_message-AsBefore broken fresh c bad_pair_request s =
    send-AsBefore broken c.conn (answer (error code_bad_request (codes "invalid pair_request"))) s
handle_message-AsBefore broken fresh c unread s = (refl, refl)
