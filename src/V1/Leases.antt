-- ===== src/V1/Leases.antt =====
-- v1/control/port_manager.go (v2/control/port_manager.go is the same): the leases of ports. Each method
-- holds the mutex throughout and is one step. A pointer to a client is a number, nil is `none`; what the
-- relay tells of its ports, a fresh session id, the time and the order of a map are arguments.
pub mod Valid
pub mod Delete
pub mod Acquire
pub mod Sweeping
pub mod Answers
pub mod Outcome
pub mod Owner
pub mod Life
use relay_x.Prelude.{
  ℕ, zero, suc, ◌+◌, ◌*◌, ◌-◌, ◌/◌, ◌%◌, ◌^◌, leb, Bool, true, false, not, ◌&&◌, ◌||◌, Option, none,
  some, List, [], ◌∷◌, Text, codes, ltb, is_blank, length, ◌==◌, if◌then◌else◌,
}
use relay_x.Prelude.Int.{ℤ, pos, negsuc, ◌+ℤ◌, ◌-ℤ◌, pos_part, leb_ℤ}
use relay_x.Prelude.Assoc.{lookup, insert, delete, text_key, number_key}
use relay_x.Errors.{Result, ok, err, plain}
use relay_x.Leases.{PortAcquire, PortGrant, is_empty, present}
use relay_x.Central.Ranges.{PortAlloc}

-- A port of 0 is none.
pub record Reservation : Type 0 where
  pub owner : ℕ
  pub request_id : Text
  pub session_id : Text
  pub zmq_port : ℕ
  pub srt_port : ℕ
  pub expires_at : ℕ

abbrev pub Sids : Type 0
Sids = List (Text × Unit {0})

pub record PortManager : Type 0 where
  pub zmq_ports : List ℤ
  pub srt_ports : List ℤ
  pub by_session : List (Text × Reservation)
  pub by_port : List (ℕ × Text)
  pub by_owner : List (ℕ × Sids)

-- `NewPortManager`
unfoldable pub new_port_manager : PortManager
new_port_manager = record {
  zmq_ports = [];
  srt_ports = [];
  by_session = [];
  by_port = [];
  by_owner = [];
}

unfoldable pub ports_up : ℤ → ℕ → List ℤ
ports_up p zero = []
ports_up p (suc n) = p ∷ ports_up (p +ℤ pos 1) n

-- The ports from the first to the last.
abbrev pub range_ports : ℤ → ℤ → List ℤ
range_ports start end =
    if leb_ℤ start end then ports_up start (pos_part (end -ℤ start +ℤ pos 1)) else []

-- `SetRanges`, with the numbers of ports.
unfoldable pub set_ranges : PortAlloc → PortManager → PortManager × ℕ × ℕ
unfolding ports_up
set_ranges p pm =
    let zmq = range_ports p.zmq_start_port p.zmq_end_port in
    let srt = range_ports p.srt_start_port p.srt_end_port in
    (record pm { zmq_ports = zmq; srt_ports = srt }, length zmq, length srt)

abbrev pub drop_port : ℕ → List (ℕ × Text) → List (ℕ × Text)
drop_port p m = if ltb 0 p then delete p m else m

abbrev pub put_port : ℕ → Text → List (ℕ × Text) → List (ℕ × Text)
put_port p sid m = if ltb 0 p then insert p sid m else m

abbrev pub set_in : Option Sids → Sids
set_in none = []
set_in (some set) = set

abbrev pub drop_sid : Option Sids → ℕ → Text → List (ℕ × Sids) → List (ℕ × Sids)
drop_sid none o sid m = m
drop_sid (some set) o sid m =
    if is_empty (delete sid set) then delete o m else insert o (delete sid set) m

-- `deleteReservationLocked`
unfoldable pub delete_reservation : Reservation → PortManager → PortManager
unfolding lookup insert delete
delete_reservation r pm = record pm {
  by_session = delete r.session_id pm.by_session;
  by_port = drop_port r.srt_port (drop_port r.zmq_port pm.by_port);
  by_owner = drop_sid (lookup r.owner pm.by_owner) r.owner r.session_id pm.by_owner;
}

abbrev pub delete_found : Option Reservation → PortManager → PortManager
delete_found none pm = pm
delete_found (some r) pm = delete_reservation r pm

abbrev pub expired : ℕ → Option Reservation → Option Reservation
expired now none = none
expired now (some r) = if not (r.expires_at == 0) && ltb r.expires_at now then some r else none

-- `sweepLocked`, over the keys of the sessions in the order that Go visits them.
unfoldable pub sweep_locked : List Text → ℕ → PortManager → PortManager
unfolding lookup delete_reservation
sweep_locked [] now pm = pm
sweep_locked (sid ∷ order) now pm =
    sweep_locked order now (delete_found (expired now (lookup sid pm.by_session)) pm)

-- The tests of a candidate, in `pickFreePortLocked` and in `AcquireFromReady`.
unfoldable pub is_free : (ℕ → Bool) → ℤ → PortManager → Bool
unfolding lookup
is_free busy p pm =
    not (leb_ℤ p (pos 0))
    && not (present (lookup (pos_part p) pm.by_port))
    && not (busy (pos_part p))

-- `pickFreePortLocked`
unfoldable pub pick_free_port : (ℕ → Bool) → List ℤ → PortManager → Option ℕ
unfolding is_free
pick_free_port busy [] pm = none
pick_free_port busy (p ∷ ps) pm =
    let rest = pick_free_port busy ps pm in if is_free busy p pm then some (pos_part p) else rest

-- The checks before the lock.
abbrev pub refusal : Option ℕ → PortAcquire → Option Text
refusal none req = some (codes "owner不能为空")
refusal (some o) req =
    if not req.need_zmq && not req.need_srt
    then some (codes "need_zmq/need_srt至少一个为true")
    else if req.need_zmq && req.need_srt
    then some (codes "一次只能申请一种协议端口(need_zmq或need_srt)")
    else none

-- `time.Duration(ttl) * time.Second`, whose nanoseconds wrap around in 64 bits.
unfoldable pub nanoseconds : ℤ → ℕ
nanoseconds (pos n) = n * 1000000000 % 2 ^ 64
nanoseconds (negsuc n) = (2 ^ 64 - suc n * 1000000000 % 2 ^ 64) % 2 ^ 64

-- Times are milliseconds. A duration from 2 ^ 63 on is negative.
unfoldable pub ttl_of : ℤ → ℕ
unfolding nanoseconds
ttl_of ttl = let d = nanoseconds ttl in if d == 0 || leb (2 ^ 63) d then 30 * 1000 else d / 1000000

abbrev pub reservation_of : ℕ → PortAcquire → ℕ → Text → ℕ → Reservation
reservation_of o req port sid now = record {
  owner = o;
  request_id = req.request_id;
  session_id = sid;
  zmq_port = if req.need_zmq then port else 0;
  srt_port = if req.need_zmq then 0 else port;
  expires_at = now + ttl_of req.ttl_seconds;
}

abbrev pub grant_of : Reservation → PortGrant
grant_of r = record {
  request_id = r.request_id;
  session_id = r.session_id;
  zmq_port = r.zmq_port;
  srt_port = r.srt_port;
  expires_at = pos r.expires_at;
}

-- The end of both acquires.
unfoldable pub reserve : Reservation → PortManager → PortManager
unfolding lookup insert
reserve r pm = record pm {
  by_session = insert r.session_id r pm.by_session;
  by_port = put_port r.srt_port r.session_id (put_port r.zmq_port r.session_id pm.by_port);
  by_owner =
      insert r.owner (insert r.session_id tt (set_in (lookup r.owner pm.by_owner))) pm.by_owner;
}

abbrev pub reserved :
    ℕ → PortAcquire → Text → ℕ → Text → PortManager → Option ℕ → PortManager × Result PortGrant
reserved o req sid now text pm none = (pm, err (plain text))
reserved o req sid now text pm (some port) =
    let r = reservation_of o req port sid now in (reserve r pm, ok (grant_of r))

-- An acquire from candidates, which are used only where the request passes the checks.
abbrev pub acquire_of :
    Option Text
    → Option ℕ
    → PortAcquire
    → List Text
    → Text
    → ℕ
    → (ℕ → Bool)
    → List ℤ
    → Text
    → PortManager
    → PortManager × Result PortGrant
acquire_of (some text) owner req order sid now busy candidates none_left pm = (pm, err (plain text))
acquire_of none none req order sid now busy candidates none_left pm = (pm, err (plain none_left))
acquire_of none (some o) req order sid now busy candidates none_left pm =
    let pm1 = sweep_locked order now pm in
    reserved o req sid now none_left pm1 (pick_free_port busy candidates pm1)

-- `Acquire`
unfoldable pub acquire :
    Option ℕ
    → PortAcquire
    → List Text
    → Text
    → ℕ
    → (ℕ → Bool)
    → PortManager
    → PortManager × Result PortGrant
unfolding sweep_locked pick_free_port reserve
acquire owner req order sid now busy pm =
    acquire_of (refusal owner req) owner req order sid now busy
      (if req.need_zmq then pm.zmq_ports else pm.srt_ports)
      (if req.need_zmq then codes "无可用zmq端口" else codes "无可用srt端口") pm

-- `AcquireFromReady`, of the ready ports of the relay's snapshot. An empty list and one without a free
-- port give the same error.
unfoldable pub acquire_from_ready :
    Option ℕ
    → PortAcquire
    → List Text
    → Text
    → ℕ
    → (ℕ → Bool)
    → List ℤ
    → List ℤ
    → PortManager
    → PortManager × Result PortGrant
unfolding sweep_locked pick_free_port reserve
acquire_from_ready owner req order sid now busy zmq_ready srt_ready pm =
    acquire_of (refusal owner req) owner req order sid now busy
      (if req.need_zmq then zmq_ready else srt_ready)
      (if req.need_zmq then codes "无可用已激活zmq端口" else codes "无可用已激活srt端口") pm

abbrev pub released : ℕ → Option Reservation → PortManager → PortManager × Bool
released o none pm = (pm, false)
released o (some r) pm = if r.owner == o then (delete_reservation r pm, true) else (pm, false)

-- `Release`
unfoldable pub release : Option ℕ → Text → PortManager → PortManager × Bool
unfolding lookup delete_reservation
release none sid pm = (pm, false)
release (some o) sid pm =
    if is_blank sid then (pm, false) else released o (lookup sid pm.by_session) pm

abbrev pub keys_of : Sids → List Text
keys_of [] = []
keys_of ((sid, t) ∷ m) = sid ∷ keys_of m

abbrev pub count_found : Option Reservation → ℕ
count_found none = 0
count_found (some r) = 1

-- The loop of `ReleaseAllForOwner`, with the number of leases it deletes.
unfoldable pub release_each : List Text → PortManager → PortManager × ℕ
unfolding lookup delete_reservation
release_each [] pm = (pm, 0)
release_each (sid ∷ order) pm =
    let found = lookup sid pm.by_session in
    let (pm1, n) = release_each order (delete_found found pm) in (pm1, count_found found + n)

-- `ReleaseAllForOwner`; the set of the owner is visited in its order.
unfoldable pub release_all_for_owner : Option ℕ → PortManager → PortManager × ℕ
unfolding release_each
release_all_for_owner none pm = (pm, 0)
release_all_for_owner (some o) pm =
    let set = set_in (lookup o pm.by_owner) in
    let (pm1, n) = release_each (keys_of set) pm in
    if is_empty set then (pm, 0) else (record pm1 { by_owner = delete o pm1.by_owner }, n)

abbrev pub port_freed : ℕ → Option Reservation → PortManager → PortManager
port_freed port none pm = record pm { by_port = delete port pm.by_port }
port_freed port (some r) pm = delete_reservation r pm

abbrev pub freed_by : ℕ → Option Text → PortManager → PortManager
freed_by port none pm = pm
freed_by port (some sid) pm =
    if is_blank sid then pm else port_freed port (lookup sid pm.by_session) pm

-- `ReleaseByPort`
unfoldable pub release_by_port : ℤ → PortManager → PortManager
unfolding lookup delete_reservation
release_by_port port pm =
    if leb_ℤ port (pos 0)
    then pm
    else freed_by (pos_part port) (lookup (pos_part port) pm.by_port) pm
