-- ===== src/Control/Protocol.antt =====
-- v4/control/protocol.go: the messages. `QoS` is never read. A payload is the decoded one.
use relay_x.Prelude.{ℕ, Bool, List, Text}
use relay_x.Prelude.Int.{ℤ}

pub data Role : Type 0 where
  server client : Role
  other : Text → Role

pub record RegisterPayload : Type 0 where
  pub role : Role
  pub id : Text
  pub token : Text
  pub max_conn : ℤ

pub record PairRequest : Type 0 where
  pub request_id : Text
  pub server_id : Text
  pub need_zmq : Bool
  pub need_srt : Bool

-- A port of 0 is one that was not asked for.
pub record PairGrant : Type 0 where
  pub request_id : Text
  pub session_id : Text
  pub server_id : Text
  pub client_id : Text
  pub server_token : Text
  pub client_token : Text
  pub zmq_port : ℕ
  pub srt_port : ℕ

pub record PortStateKind : Type 0 where
  pub total : ℕ
  pub idle : ℕ
  pub reserved : ℕ
  pub occupied : ℕ
  pub blocked : ℕ
  pub idle_ports : List ℕ

pub record PortState : Type 0 where
  pub zmq : PortStateKind
  pub srt : PortStateKind

-- What the hub receives on a registered connection; `bad_pair_request` is a `pair_request` whose
-- payload does not decode, `unread` a message of any other type.
pub data Incoming : Type 0 where
  register : RegisterPayload → Incoming
  pair_request : PairRequest → Incoming
  bad_pair_request : Incoming
  unread : Incoming

-- What the hub sends.
pub data Outgoing : Type 0 where
  register_ok : Outgoing
  register_error : ℕ → Text → Outgoing
  pair_grant : PairGrant → Outgoing
  pair_error : ℕ → Text → Outgoing
  error : ℕ → Text → Outgoing
