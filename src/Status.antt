-- ===== src/Status.antt =====
-- v4/status/status.go: the five status texts. Go's string constants are the constructors; a JSON
-- document is what `json.Unmarshal` makes of its bytes.
pub mod Parsing
mod Tests
use relay_x.Prelude.{quoted, [], ◌≡◌, Bool, Text, codes, text_eq, trim_space, ◌++◌, if◌then◌else◌}
use relay_x.Errors.{Err, nil, plain, Result, ok, err}

pub data GatewayStatus : Type 0 where
  starting running stopping stopped : GatewayStatus

pub data PortStatus : Type 0 where
  idle occupied reserved blocked : PortStatus

pub data ConnStatus : Type 0 where
  init handshake established disconnected error : ConnStatus

pub data AuthStatus : Type 0 where
  pending approved rejected expired : AuthStatus

pub data FlowDirection : Type 0 where
  unknown sending receiving duplex : FlowDirection

-- A decoded JSON document, as far as decoding it into a string tells documents apart.
pub data Json : Type 0 where
  null : Json
  str : Text → Json
  other : Json

-- `json.Unmarshal(b, &v)` with `var v string`: `null` is no error and leaves `v` empty.
unfoldable pub unmarshal_string : Json → Result Text
unmarshal_string null = ok []
unmarshal_string (str s) = ok s
unmarshal_string other = err (plain (codes "json: cannot unmarshal into a string"))

-- The end of each `UnmarshalJSON`: the receiver is written only when parsing gives a value.
abbrev pub assign {ℓ} : {S : Type ℓ} → S → Result S → S × Err
assign old (ok s) = (s, nil)
assign old (err e) = (old, e)

abbrev pub parsed {ℓ} : {S : Type ℓ} → (Text → Result S) → Result Text → Result S
parsed parse (ok v) = parse v
parsed parse (err e) = err e

unfoldable pub gateway_text : GatewayStatus → Text
gateway_text starting = codes "Starting"
gateway_text running = codes "Running"
gateway_text stopping = codes "Stopping"
gateway_text stopped = codes "Stopped"

unfoldable pub parse_gateway : Text → Result GatewayStatus
parse_gateway v =
    let t = trim_space v in
    if text_eq t (codes "Starting")
    then ok starting
    else if text_eq t (codes "Running")
    then ok running
    else if text_eq t (codes "Stopping")
    then ok stopping
    else if text_eq t (codes "Stopped")
    then ok stopped
    else err (plain (codes "unknown GatewayStatus: " ++ quoted v))

unfoldable pub marshal_gateway : GatewayStatus → Json
unfolding gateway_text
marshal_gateway s = str (gateway_text s)

unfoldable pub unmarshal_gateway : GatewayStatus → Json → GatewayStatus × Err
unfolding unmarshal_string
unmarshal_gateway old b = assign old (parsed parse_gateway (unmarshal_string b))

unfoldable pub port_text : PortStatus → Text
port_text idle = codes "Idle"
port_text occupied = codes "Occupied"
port_text reserved = codes "Reserved"
port_text blocked = codes "Blocked"

unfoldable pub parse_port : Text → Result PortStatus
parse_port v =
    let t = trim_space v in
    if text_eq t (codes "Idle")
    then ok idle
    else if text_eq t (codes "Occupied")
    then ok occupied
    else if text_eq t (codes "Reserved")
    then ok reserved
    else if text_eq t (codes "Blocked")
    then ok blocked
    else err (plain (codes "unknown PortStatus: " ++ quoted v))

unfoldable pub marshal_port : PortStatus → Json
unfolding port_text
marshal_port s = str (port_text s)

unfoldable pub unmarshal_port : PortStatus → Json → PortStatus × Err
unfolding unmarshal_string
unmarshal_port old b = assign old (parsed parse_port (unmarshal_string b))

unfoldable pub conn_text : ConnStatus → Text
conn_text init = codes "Init"
conn_text handshake = codes "Handshake"
conn_text established = codes "Established"
conn_text disconnected = codes "Disconnected"
conn_text error = codes "Error"

unfoldable pub parse_conn : Text → Result ConnStatus
parse_conn v =
    let t = trim_space v in
    if text_eq t (codes "Init")
    then ok init
    else if text_eq t (codes "Handshake")
    then ok handshake
    else if text_eq t (codes "Established")
    then ok established
    else if text_eq t (codes "Disconnected")
    then ok disconnected
    else if text_eq t (codes "Error")
    then ok error
    else err (plain (codes "unknown ConnStatus: " ++ quoted v))

unfoldable pub marshal_conn : ConnStatus → Json
unfolding conn_text
marshal_conn s = str (conn_text s)

unfoldable pub unmarshal_conn : ConnStatus → Json → ConnStatus × Err
unfolding unmarshal_string
unmarshal_conn old b = assign old (parsed parse_conn (unmarshal_string b))

unfoldable pub auth_text : AuthStatus → Text
auth_text pending = codes "Pending"
auth_text approved = codes "Approved"
auth_text rejected = codes "Rejected"
auth_text expired = codes "Expired"

unfoldable pub parse_auth : Text → Result AuthStatus
parse_auth v =
    let t = trim_space v in
    if text_eq t (codes "Pending")
    then ok pending
    else if text_eq t (codes "Approved")
    then ok approved
    else if text_eq t (codes "Rejected")
    then ok rejected
    else if text_eq t (codes "Expired")
    then ok expired
    else err (plain (codes "unknown AuthStatus: " ++ quoted v))

unfoldable pub marshal_auth : AuthStatus → Json
unfolding auth_text
marshal_auth s = str (auth_text s)

unfoldable pub unmarshal_auth : AuthStatus → Json → AuthStatus × Err
unfolding unmarshal_string
unmarshal_auth old b = assign old (parsed parse_auth (unmarshal_string b))

unfoldable pub flow_text : FlowDirection → Text
flow_text unknown = codes "Unknown"
flow_text sending = codes "Sending"
flow_text receiving = codes "Receiving"
flow_text duplex = codes "Duplex"

unfoldable pub parse_flow : Text → Result FlowDirection
parse_flow v =
    let t = trim_space v in
    if text_eq t (codes "Unknown")
    then ok unknown
    else if text_eq t (codes "Sending")
    then ok sending
    else if text_eq t (codes "Receiving")
    then ok receiving
    else if text_eq t (codes "Duplex")
    then ok duplex
    else err (plain (codes "unknown FlowDirection: " ++ quoted v))

unfoldable pub marshal_flow : FlowDirection → Json
unfolding flow_text
marshal_flow s = str (flow_text s)

unfoldable pub unmarshal_flow : FlowDirection → Json → FlowDirection × Err
unfolding unmarshal_string
unmarshal_flow old b = assign old (parsed parse_flow (unmarshal_string b))
