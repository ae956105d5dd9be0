-- ===== src/Control/Tests.antt =====
-- A hub with a server of capacity 1 and a client, and the theorems at it.
use relay_x.Prelude.{
  ℕ, Bool, none, some, trim_space, trim_left, is_space, ◌≡◌, refl, ap, ◌∙◌, true, false, [], ◌∷◌,
  codes, arith, text_eq,
}
use relay_x.Prelude.Int.{pos}
use relay_x.Prelude.Assoc.{lookup, insert, text_key, number_key}
use relay_x.Errors.{nil, ok, new, code_unavailable}
use relay_x.Status.{pending, approved}
use relay_x.Prelude.Sorting.{elem}
use relay_x.Ports.Defs.{zmq, srt, idle_pool, new_pool, reserve, release, block}
use relay_x.Ports.Valid
use relay_x.Ports.Valid.{new_pool-IsValid, block-IsValid}
use relay_x.Control.Protocol.{server, client, RegisterPayload, register, PairRequest, PairGrant}
use relay_x.Control.Hub.{Hub, Client, new_client, admitted, validate_and_register}
use relay_x.Control.Pairing.{Surroundings, remaining_of, eligible, try_pair_once, grant_of}
use relay_x.Control.Register.{IsValid, register-IsValid, Admits, validate_and_register_iff}
use relay_x.Control.Serving.{Gateway, new_gateway, handle_conn, handler_ended, broadcast_status}
use relay_x.Control.Online as Online
use relay_x.Control.Online.{broadcast_status-AsBefore}
use relay_x.Control.Gateway.{start, next, connecting, telling, ending, Reach-Gateway}
use relay_x.Control.Grant.{Granted}
use relay_x.Control.Choice.{IsChoice}
use relay_x.Control.Once.{try_pair_once_failed, try_pair_once-Granted}
use relay_x.Control.Capacity.{remaining_of-try_pair_once}
use relay_x.Relay.Tcp.{Server, new_server, session_stopped}
use relay_x.Relay.Sessions.{server_first, client_first, at_once}
use relay_x.Relay.Whole.{IsFree, allocated, promised, session_stopped-try_pair_once}

abbrev empty_hub : Hub
empty_hub = record {
  max_connections = pos 10;
  zmq_pool = idle_pool zmq 2300 2301;
  srt_pool = idle_pool srt 2350 2350;
  clients = [];
  servers = [];
  fe = [];
}

abbrev back_end : Client
back_end = record {
  conn = 1;
  role = server;
  id = codes "be";
  token = codes "tb";
  max_conn = pos 1;
  auth = pending;
}

abbrev front_end : Client
front_end = record {
  conn = 2;
  role = client;
  id = codes "fe";
  token = codes "tf";
  max_conn = pos 0;
  auth = pending;
}

empty_hub-IsValid : IsValid empty_hub
unfolding lookup
empty_hub-IsValid = record {
  bounded = omega arith;
  servers = λ id. tt;
  fe = λ id. tt;
  clients = λ conn. tt;
}

-- The hub with the server.
abbrev hub1 : Hub
hub1 = record empty_hub {
  servers = (codes "be", admitted back_end) ∷ [];
  clients = (1, admitted back_end) ∷ [];
}

registered : validate_and_register back_end empty_hub ≡ (hub1, nil)
unfolding validate_and_register lookup insert
registered = refl

hub1-IsValid : IsValid hub1
unfolding validate_and_register lookup insert
hub1-IsValid = register-IsValid back_end empty_hub refl empty_hub-IsValid

zmq-IsValid : Valid.IsValid empty_hub.zmq_pool
unfolding new_pool
zmq-IsValid = new_pool-IsValid zmq (pos 2300) (pos 2301) refl

srt-IsValid : Valid.IsValid empty_hub.srt_pool
unfolding new_pool
srt-IsValid = new_pool-IsValid srt (pos 2350) (pos 2350) refl

abbrev both : PairRequest
both = record { request_id = codes "r"; server_id = []; need_zmq = true; need_srt = true }

-- The hub after the first grant, under the session "s" at time 5.
abbrev hub2 : Hub
hub2 = record hub1 {
  zmq_pool = (reserve (codes "s") (codes "be") (codes "fe") 5 hub1.zmq_pool).0;
  srt_pool = (reserve (codes "s") (codes "be") (codes "fe") 5 hub1.srt_pool).0;
}

abbrev grant : PairGrant
grant = grant_of (admitted back_end) front_end both (codes "s") 2300 2350

paired : try_pair_once front_end both (codes "s") 5 hub1 ≡ (hub2, ok grant)
unfolding try_pair_once reserve new_pool remaining_of
paired = refl

try_pair_once-Granted_example :
    (s : Client) × IsChoice hub1 (eligible both hub1) s
    × Granted s front_end both (codes "s") 5 hub1 hub2 grant
try_pair_once-Granted_example =
    try_pair_once-Granted front_end both (codes "s") 5 hub1 zmq-IsValid srt-IsValid paired

remaining_of-try_pair_once_example :
    remaining_of hub2 (admitted back_end) ≡ remaining_of hub1 (admitted back_end)
remaining_of-try_pair_once_example =
    remaining_of-try_pair_once front_end both (codes "s") 5 hub1 zmq-IsValid srt-IsValid paired
      (admitted back_end)

-- The only SRT port is blocked: the ZMQ port that was reserved goes back.
abbrev no_srt : Hub
no_srt = record hub1 { srt_pool = (block 2350 [] hub1.srt_pool).0 }

try_pair_once_failed_example : (try_pair_once front_end both (codes "s") 5 no_srt).0 ≡ no_srt
unfolding try_pair_once reserve new_pool remaining_of block release text_eq
try_pair_once_failed_example =
    try_pair_once_failed front_end both (codes "s") 5 no_srt zmq-IsValid
      (block-IsValid 2350 [] hub1.srt_pool srt-IsValid)
      {e = new code_unavailable (codes "no available port")} refl

abbrev quiet : Surroundings
quiet = record {
  done = λ k. false;
  new_id = λ k. codes "s";
  now = λ k. k;
  meanwhile = λ k h. h;
  asleep = λ k h. h;
}

validate_and_register_iff_example : Admits back_end empty_hub
unfolding validate_and_register lookup insert
validate_and_register_iff_example = (validate_and_register_iff back_end empty_hub).0.0 refl

abbrev closed_to_none : ℕ → Bool
closed_to_none conn = false

abbrev gateway1 : Gateway
gateway1 = new_gateway (pos 10) empty_hub.zmq_pool empty_hub.srt_pool 7

abbrev joining : RegisterPayload
joining = record { role = server; id = codes " be"; token = codes "tb"; max_conn = pos 1 }

abbrev gateway2 : Gateway
gateway2 = handle_conn closed_to_none 1 (some (register joining)) gateway1

abbrev served : Client
served = record back_end { auth = approved }

gateway2-serving : gateway2.serving 1 ≡ some served
unfolding handle_conn new_gateway validate_and_register new_client trim_space trim_left is_space
    elem lookup
gateway2-serving = refl

abbrev gateway3 : Gateway
gateway3 = handler_ended served (broadcast_status closed_to_none 8 gateway2)

gateway1-serving : gateway1.serving 1 ≡ none
unfolding new_gateway
gateway1-serving = refl

told-serving : (broadcast_status closed_to_none 8 gateway2).serving 1 ≡ some served
told-serving =
    ap (λ m. m 1) (broadcast_status-AsBefore closed_to_none 8 gateway2).1 ∙ gateway2-serving

Reach-Gateway_example : Online.IsValid gateway3
Reach-Gateway_example = Reach-Gateway (
    next
      (next
        (next (start (pos 10) empty_hub.zmq_pool empty_hub.srt_pool 7 zmq-IsValid srt-IsValid)
          (connecting closed_to_none 1 (some (register joining)) gateway1-serving refl))
        (telling closed_to_none 8 refl))
      (ending served told-serving refl))

abbrev data_plane : Server
data_plane = new_server hub2.zmq_pool

data_plane-IsFree : IsFree grant.zmq_port data_plane
unfolding new_server
data_plane-IsFree = record { no_session = refl; no_server = refl; no_client = refl }

data_plane-pool : data_plane.pool ≡ hub2.zmq_pool
unfolding new_server
data_plane-pool = refl

session_stopped-try_pair_once_example :
    let a = allocated hub1.zmq_pool grant 5 in
    let joined = server_first grant.zmq_port a 8 7 data_plane in
    (joined ≡ client_first grant.zmq_port a 8 7 data_plane)
    × (joined.sessions grant.zmq_port ≡ some (promised grant 8 7))
    × (session_stopped grant.zmq_port grant.session_id at_once joined
        ≡ record data_plane { pool = hub1.zmq_pool })
session_stopped-try_pair_once_example =
    session_stopped-try_pair_once front_end both (codes "s") 5 hub1 8 7 data_plane zmq-IsValid
      srt-IsValid refl paired data_plane-pool data_plane-IsFree
