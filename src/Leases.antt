-- ===== src/Leases.antt =====
-- v3/control/port_manager.go: the leases of ports. What runs under one lock is one step. A pointer to
-- a client is a number; the ports that the relay reports, a fresh session id and the time are
-- arguments, and so is the order in which Go ranges over a map.
pub mod Valid
pub mod Delete
pub mod Acquire
pub mod Race
pub mod Owner
mod Tests
use relay_x.Prelude.{
  ℕ, ◌+◌, ◌-◌, ◌*◌, ◌/◌, ◌%◌, ◌^◌, Bool, true, false, not, ◌&&◌, Option, none, some, List, [], ◌∷◌,
  Text, codes, ltb, ◌==◌, if◌then◌else◌,
}
use relay_x.Prelude.Int.{ℤ, pos, negsuc, pos_part, leb_ℤ, ltb_ℤ, ◌+ℤ◌}
use relay_x.Prelude.Assoc.{lookup, insert, delete, text_key, number_key}
use relay_x.Errors.{Result, ok, err, plain}

pub record Reservation : Type 0 where
  pub session_id : Text
  pub port : ℕ
  pub owner : Option ℕ
  pub expires_at : ℤ

-- The three maps of `PortManager`, and its `ports`.
pub record PortManager : Type 0 where
  pub ports : List ℕ
  pub by_session : List (Text × Reservation)
  pub by_port : List (ℕ × Reservation)
  pub by_owner : List (ℕ × List (Text × Reservation))

pub record PortAcquire : Type 0 where
  pub request_id : Text
  pub need_zmq : Bool
  pub need_srt : Bool
  pub ttl_seconds : ℤ

pub record PortGrant : Type 0 where
  pub request_id : Text
  pub session_id : Text
  pub zmq_port : ℕ
  pub srt_port : ℕ
  pub expires_at : ℤ

abbrev pub present {ℓ} : {A : Type ℓ} → Option A → Bool
present none = false
present (some a) = true

-- `isPortAvailable`
unfoldable pub is_port_available : ℕ → PortManager → Bool
unfolding lookup
is_port_available port pm = not (present (lookup port pm.by_port))

abbrev pub ttl_of : ℤ → ℕ
ttl_of ttl = if leb_ℤ ttl (pos 0) then 60 else pos_part ttl

-- `time.Duration(ttl) * time.Second` in milliseconds: its nanoseconds wrap around in 64 bits, and are negative
-- from 2 ^ 63 on.
unfoldable pub duration : ℕ → ℤ
duration ttl =
    let d = ttl * 1000000000 % 2 ^ 64 in
    if ltb d (2 ^ 63) then pos (d / 1000000) else negsuc ((2 ^ 64 - d - 1) / 1000000)

-- Times are milliseconds since 1970.
abbrev pub reservation_of : Option ℕ → PortAcquire → ℕ → Text → ℕ → Reservation
reservation_of owner req port sid now = record {
  session_id = sid;
  port = port;
  owner = owner;
  expires_at = pos now +ℤ duration (ttl_of req.ttl_seconds);
}

abbrev pub set_in : Option (List (Text × Reservation)) → List (Text × Reservation)
set_in none = []
set_in (some set) = set

-- The entry for the owner, where there is one.
abbrev pub put_owned :
    Option ℕ
    → Text
    → Reservation
    → List (ℕ × List (Text × Reservation))
    → List (ℕ × List (Text × Reservation))
put_owned none sid r m = m
put_owned (some o) sid r m = insert o (insert sid r (set_in (lookup o m))) m

abbrev pub grant_of : PortAcquire → Reservation → PortGrant
grant_of req r = record {
  request_id = req.request_id;
  session_id = r.session_id;
  zmq_port = r.port;
  srt_port = r.port;
  expires_at = r.expires_at;
}

-- `reservePort`
unfoldable pub reserve_port :
    Option ℕ → PortAcquire → ℕ → Text → ℕ → PortManager → PortManager × PortGrant
unfolding lookup insert
reserve_port owner req port sid now pm =
    let r = reservation_of owner req port sid now in
    (
      record pm {
        by_session = insert sid r pm.by_session;
        by_port = insert port r pm.by_port;
        by_owner = put_owned owner sid r pm.by_owner;
      },
      grant_of req r,
    )

-- The loop over the ports of a snapshot. The lock is given up after each check: `meanwhile port` is what
-- others do after the check of `port`.
unfoldable pub scan :
    (ℕ → PortManager → PortManager)
    → List ℕ
    → Option ℕ
    → PortAcquire
    → Text
    → ℕ
    → PortManager
    → PortManager × Option PortGrant
unfolding is_port_available reserve_port
scan meanwhile [] owner req sid now pm = (pm, none)
scan meanwhile (p ∷ ps) owner req sid now pm =
    let pm1 = meanwhile p pm in
    let rest = scan meanwhile ps owner req sid now pm1 in
    let (pm2, g) = reserve_port owner req p sid now pm1 in
    if is_port_available p pm then (pm2, some g) else rest

abbrev acquired : PortManager × Option PortGrant → PortManager × Result PortGrant
acquired (pm, none) = (pm, err (plain (codes "no available ports")))
acquired (pm, some g) = (pm, ok g)

-- `Acquire`, of the ports without a connection.
unfoldable pub acquire :
    (ℕ → PortManager → PortManager)
    → List ℕ
    → Option ℕ
    → PortAcquire
    → Text
    → ℕ
    → PortManager
    → PortManager × Result PortGrant
unfolding scan
acquire meanwhile empty_ports owner req sid now pm =
    acquired (scan meanwhile empty_ports owner req sid now pm)

abbrev or_acquire :
    (PortManager → PortManager × Result PortGrant)
    → PortManager × Option PortGrant
    → PortManager × Result PortGrant
or_acquire next (pm, none) = next pm
or_acquire next (pm, some g) = (pm, ok g)

-- `AcquireFromReady`, of the ports with a connection that waits, then of those without.
unfoldable pub acquire_from_ready :
    (ℕ → PortManager → PortManager)
    → List ℕ
    → List ℕ
    → Option ℕ
    → PortAcquire
    → Text
    → ℕ
    → PortManager
    → PortManager × Result PortGrant
unfolding scan acquire
acquire_from_ready meanwhile ready_ports empty_ports owner req sid now pm =
    or_acquire (acquire meanwhile empty_ports owner req sid now)
      (scan meanwhile ready_ports owner req sid now pm)

abbrev pub is_empty {ℓ} : {A : Type ℓ} → List A → Bool
is_empty [] = true
is_empty (x ∷ xs) = false

abbrev pub drop_from :
    Option (List (Text × Reservation))
    → ℕ
    → Text
    → List (ℕ × List (Text × Reservation))
    → List (ℕ × List (Text × Reservation))
drop_from none o sid m = m
drop_from (some set) o sid m =
    if is_empty (delete sid set) then delete o m else insert o (delete sid set) m

-- A reservation without an owner has no set.
abbrev pub drop_owned :
    Option ℕ → Text → List (ℕ × List (Text × Reservation)) → List (ℕ × List (Text × Reservation))
drop_owned none sid m = m
drop_owned (some o) sid m = drop_from (lookup o m) o sid m

-- `deleteReservationLocked`
unfoldable pub delete_reservation : Reservation → PortManager → PortManager
unfolding lookup insert delete
delete_reservation r pm = record pm {
  by_session = delete r.session_id pm.by_session;
  by_port = delete r.port pm.by_port;
  by_owner = drop_owned r.owner r.session_id pm.by_owner;
}

-- `resv.owner != nil && owner != nil && resv.owner != owner`
abbrev pub foreign : Option ℕ → Option ℕ → Bool
foreign (some a) (some b) = not (a == b)
foreign none owner = false
foreign owner none = false

abbrev released : Option ℕ → Option Reservation → PortManager → PortManager × Option ℕ
released owner none pm = (pm, none)
released owner (some r) pm =
    if foreign r.owner owner then (pm, none) else (delete_reservation r pm, some r.port)

-- `Release`; the port of a lease that was released.
unfoldable pub release : Option ℕ → Text → PortManager → PortManager × Option ℕ
unfolding lookup delete_reservation
release owner sid pm = released owner (lookup sid pm.by_session) pm

abbrev pub owner_set : ℕ → PortManager → List (Text × Reservation)
owner_set o pm = set_in (lookup o pm.by_owner)

abbrev pub delete_found : Option Reservation → PortManager → PortManager
delete_found none pm = pm
delete_found (some r) pm = delete_reservation r pm

-- `ReleaseAllForOwner`: the keys of the owner's set, in the order that Go visits them; what is deleted
-- before it is reached is not visited.
unfoldable pub release_all_for_owner : List Text → ℕ → PortManager → PortManager
unfolding lookup delete_reservation
release_all_for_owner [] o pm = pm
release_all_for_owner (sid ∷ order) o pm =
    release_all_for_owner order o (delete_found (lookup sid (owner_set o pm)) pm)

-- `IsZero`: the beginning of the year 1.
abbrev pub is_zero : ℤ → Bool
is_zero (pos n) = false
is_zero (negsuc n) = n == 62135596799999

abbrev pub expired : ℕ → Option Reservation → Option Reservation
expired now none = none
expired now (some r) =
    if not (is_zero r.expires_at) && ltb_ℤ r.expires_at (pos now) then some r else none

-- A round of `sweepLoop`, over the keys of the sessions.
unfoldable pub sweep : List Text → ℕ → PortManager → PortManager
unfolding lookup delete_reservation
sweep [] now pm = pm
sweep (sid ∷ order) now pm =
    sweep order now (delete_found (expired now (lookup sid pm.by_session)) pm)

unfoldable pub new_port_manager : PortManager
new_port_manager = record { ports = []; by_session = []; by_port = []; by_owner = [] }

abbrev pub keys_of : List (Text × Reservation) → List Text
keys_of [] = []
keys_of ((sid, r) ∷ m) = sid ∷ keys_of m
