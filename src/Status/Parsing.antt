-- ===== src/Status/Parsing.antt =====
-- v4/status/status.go: what the parsers accept, and the JSON round trip.
use relay_x.Prelude.{◌≡◌, refl, ◌≢◌, ◌↔◌, Text, codes, text_eq_iff, trim_space, arith}
use relay_x.Errors.{nil, ok}
use relay_x.Status.{
  Json, GatewayStatus, gateway_text, parse_gateway, marshal_gateway, unmarshal_gateway, PortStatus,
  port_text, parse_port, marshal_port, unmarshal_port, ConnStatus, conn_text, parse_conn,
  marshal_conn, unmarshal_conn, AuthStatus, auth_text, parse_auth, marshal_auth, unmarshal_auth,
  FlowDirection, flow_text, parse_flow, marshal_flow, unmarshal_flow, approved, blocked,
  disconnected, duplex, error, established, expired, handshake, idle, init, occupied, pending,
  receiving, rejected, reserved, running, sending, starting, stopped, stopping, unknown,
}

parse_gateway_iff :
    (v : Text) (s : GatewayStatus) → (parse_gateway v ≡ ok s) ↔ (trim_space v ≡ gateway_text s)
unfolding parse_gateway gateway_text
parse_gateway_iff v s = ground (
  arith,
  text_eq_iff (trim_space v) (codes "Starting"),
  text_eq_iff (trim_space v) (codes "Running"),
  text_eq_iff (trim_space v) (codes "Stopping"),
  text_eq_iff (trim_space v) (codes "Stopped"),
)

trim_space-gateway_text : (s : GatewayStatus) → trim_space (gateway_text s) ≡ gateway_text s
unfolding trim_space gateway_text
trim_space-gateway_text starting = refl
trim_space-gateway_text running = refl
trim_space-gateway_text stopping = refl
trim_space-gateway_text stopped = refl

unmarshal_gateway-marshal :
    (old s : GatewayStatus) → unmarshal_gateway old (marshal_gateway s) ≡ (s, nil)
unfolding unmarshal_gateway marshal_gateway
unmarshal_gateway-marshal old s =
    rw ((parse_gateway_iff (gateway_text s) s).1 (trim_space-gateway_text s))

unmarshal_gateway_failed :
    (old : GatewayStatus) (b : Json)
    → (unmarshal_gateway old b).1 ≢ nil
    → (unmarshal_gateway old b).0 ≡ old
unfolding unmarshal_gateway
unmarshal_gateway_failed old b h = ground arith

parse_port_iff : (v : Text) (s : PortStatus) → (parse_port v ≡ ok s) ↔ (trim_space v ≡ port_text s)
unfolding parse_port port_text
parse_port_iff v s = ground (
  arith,
  text_eq_iff (trim_space v) (codes "Idle"),
  text_eq_iff (trim_space v) (codes "Occupied"),
  text_eq_iff (trim_space v) (codes "Reserved"),
  text_eq_iff (trim_space v) (codes "Blocked"),
)

trim_space-port_text : (s : PortStatus) → trim_space (port_text s) ≡ port_text s
unfolding trim_space port_text
trim_space-port_text idle = refl
trim_space-port_text occupied = refl
trim_space-port_text reserved = refl
trim_space-port_text blocked = refl

unmarshal_port-marshal : (old s : PortStatus) → unmarshal_port old (marshal_port s) ≡ (s, nil)
unfolding unmarshal_port marshal_port
unmarshal_port-marshal old s = rw ((parse_port_iff (port_text s) s).1 (trim_space-port_text s))

unmarshal_port_failed :
    (old : PortStatus) (b : Json) → (unmarshal_port old b).1 ≢ nil → (unmarshal_port old b).0 ≡ old
unfolding unmarshal_port
unmarshal_port_failed old b h = ground arith

parse_conn_iff : (v : Text) (s : ConnStatus) → (parse_conn v ≡ ok s) ↔ (trim_space v ≡ conn_text s)
unfolding parse_conn conn_text
parse_conn_iff v s = ground (
  arith,
  text_eq_iff (trim_space v) (codes "Init"),
  text_eq_iff (trim_space v) (codes "Handshake"),
  text_eq_iff (trim_space v) (codes "Established"),
  text_eq_iff (trim_space v) (codes "Disconnected"),
  text_eq_iff (trim_space v) (codes "Error"),
)

trim_space-conn_text : (s : ConnStatus) → trim_space (conn_text s) ≡ conn_text s
unfolding trim_space conn_text
trim_space-conn_text init = refl
trim_space-conn_text handshake = refl
trim_space-conn_text established = refl
trim_space-conn_text disconnected = refl
trim_space-conn_text error = refl

unmarshal_conn-marshal : (old s : ConnStatus) → unmarshal_conn old (marshal_conn s) ≡ (s, nil)
unfolding unmarshal_conn marshal_conn
unmarshal_conn-marshal old s = rw ((parse_conn_iff (conn_text s) s).1 (trim_space-conn_text s))

unmarshal_conn_failed :
    (old : ConnStatus) (b : Json) → (unmarshal_conn old b).1 ≢ nil → (unmarshal_conn old b).0 ≡ old
unfolding unmarshal_conn
unmarshal_conn_failed old b h = ground arith

parse_auth_iff : (v : Text) (s : AuthStatus) → (parse_auth v ≡ ok s) ↔ (trim_space v ≡ auth_text s)
unfolding parse_auth auth_text
parse_auth_iff v s = ground (
  arith,
  text_eq_iff (trim_space v) (codes "Pending"),
  text_eq_iff (trim_space v) (codes "Approved"),
  text_eq_iff (trim_space v) (codes "Rejected"),
  text_eq_iff (trim_space v) (codes "Expired"),
)

trim_space-auth_text : (s : AuthStatus) → trim_space (auth_text s) ≡ auth_text s
unfolding trim_space auth_text
trim_space-auth_text pending = refl
trim_space-auth_text approved = refl
trim_space-auth_text rejected = refl
trim_space-auth_text expired = refl

unmarshal_auth-marshal : (old s : AuthStatus) → unmarshal_auth old (marshal_auth s) ≡ (s, nil)
unfolding unmarshal_auth marshal_auth
unmarshal_auth-marshal old s = rw ((parse_auth_iff (auth_text s) s).1 (trim_space-auth_text s))

unmarshal_auth_failed :
    (old : AuthStatus) (b : Json) → (unmarshal_auth old b).1 ≢ nil → (unmarshal_auth old b).0 ≡ old
unfolding unmarshal_auth
unmarshal_auth_failed old b h = ground arith

parse_flow_iff :
    (v : Text) (s : FlowDirection) → (parse_flow v ≡ ok s) ↔ (trim_space v ≡ flow_text s)
unfolding parse_flow flow_text
parse_flow_iff v s = ground (
  arith,
  text_eq_iff (trim_space v) (codes "Unknown"),
  text_eq_iff (trim_space v) (codes "Sending"),
  text_eq_iff (trim_space v) (codes "Receiving"),
  text_eq_iff (trim_space v) (codes "Duplex"),
)

trim_space-flow_text : (s : FlowDirection) → trim_space (flow_text s) ≡ flow_text s
unfolding trim_space flow_text
trim_space-flow_text unknown = refl
trim_space-flow_text sending = refl
trim_space-flow_text receiving = refl
trim_space-flow_text duplex = refl

unmarshal_flow-marshal : (old s : FlowDirection) → unmarshal_flow old (marshal_flow s) ≡ (s, nil)
unfolding unmarshal_flow marshal_flow
unmarshal_flow-marshal old s = rw ((parse_flow_iff (flow_text s) s).1 (trim_space-flow_text s))

unmarshal_flow_failed :
    (old : FlowDirection) (b : Json)
    → (unmarshal_flow old b).1 ≢ nil
    → (unmarshal_flow old b).0 ≡ old
unfolding unmarshal_flow
unmarshal_flow_failed old b h = ground arith

-- Each of the five parsers accepts a text as a status exactly when the text without the spaces
-- around it is that status's own text.
pub parse_iff :
    (v : Text)
    → ((s : GatewayStatus) → (parse_gateway v ≡ ok s) ↔ (trim_space v ≡ gateway_text s))
      × ((s : PortStatus) → (parse_port v ≡ ok s) ↔ (trim_space v ≡ port_text s))
      × ((s : ConnStatus) → (parse_conn v ≡ ok s) ↔ (trim_space v ≡ conn_text s))
      × ((s : AuthStatus) → (parse_auth v ≡ ok s) ↔ (trim_space v ≡ auth_text s))
      × ((s : FlowDirection) → (parse_flow v ≡ ok s) ↔ (trim_space v ≡ flow_text s))
parse_iff v =
    (parse_gateway_iff v, parse_port_iff v, parse_conn_iff v, parse_auth_iff v, parse_flow_iff v)

-- Decoding the JSON of any status, into any receiver, writes that status and reports no error.
pub unmarshal-marshal :
    ((old s : GatewayStatus) → unmarshal_gateway old (marshal_gateway s) ≡ (s, nil))
    × ((old s : PortStatus) → unmarshal_port old (marshal_port s) ≡ (s, nil))
    × ((old s : ConnStatus) → unmarshal_conn old (marshal_conn s) ≡ (s, nil))
    × ((old s : AuthStatus) → unmarshal_auth old (marshal_auth s) ≡ (s, nil))
    × ((old s : FlowDirection) → unmarshal_flow old (marshal_flow s) ≡ (s, nil))
unmarshal-marshal = (
  unmarshal_gateway-marshal, unmarshal_port-marshal, unmarshal_conn-marshal, unmarshal_auth-marshal,
  unmarshal_flow-marshal,
)

-- Where decoding a JSON document reports an error, the receiver keeps its old status.
pub unmarshal_failed :
    (b : Json)
    → ((old : GatewayStatus)
        → (unmarshal_gateway old b).1 ≢ nil
        → (unmarshal_gateway old b).0 ≡ old)
      × ((old : PortStatus) → (unmarshal_port old b).1 ≢ nil → (unmarshal_port old b).0 ≡ old)
      × ((old : ConnStatus) → (unmarshal_conn old b).1 ≢ nil → (unmarshal_conn old b).0 ≡ old)
      × ((old : AuthStatus) → (unmarshal_auth old b).1 ≢ nil → (unmarshal_auth old b).0 ≡ old)
      × ((old : FlowDirection) → (unmarshal_flow old b).1 ≢ nil → (unmarshal_flow old b).0 ≡ old)
unmarshal_failed b = (
  λ old. unmarshal_gateway_failed old b,
  λ old. unmarshal_port_failed old b,
  λ old. unmarshal_conn_failed old b,
  λ old. unmarshal_auth_failed old b,
  λ old. unmarshal_flow_failed old b,
)
