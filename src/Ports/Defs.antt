-- ===== src/Ports/Defs.antt =====
-- v4/ports/pool.go: the state and the operations.
use relay_x.Prelude.{
  ℕ, zero, suc, ◌+◌, ◌-◌, Bool, true, false, ◌&&◌, ◌||◌, not, Option, none, some, List, [], ◌∷◌,
  ◌++◌, Text, codes, text_eq, is_blank, Map, empty, put, length, decimal, ltb, leb, ◌==◌,
  if◌then◌else◌,
}
use relay_x.Prelude.Int.{ℤ, pos, pos_part, ltb_ℤ, leb_ℤ, integer}
use relay_x.Prelude.Sorting.{sort}
use relay_x.Errors.{
  Err, nil, plain, coded, Result, ok, err, new, code_unavailable, code_conflict, code_bad_request,
}
use relay_x.Status.{PortStatus, idle, occupied, reserved, blocked, port_text}

pub data Kind : Type 0 where
  zmq srt : Kind

pub record Allocation : Type 0 where
  pub kind : Kind
  pub port : ℕ
  pub session_id : Text
  pub server_id : Text
  pub client_id : Text
  pub reserved_at : ℕ

pub record Pool : Type 0 where
  pub kind : Kind
  pub ports : List ℕ
  pub state : Map PortStatus
  pub alloc : Map Allocation

abbrev pub is_state : PortStatus → Option PortStatus → Bool
is_state idle (some idle) = true
is_state occupied (some occupied) = true
is_state reserved (some reserved) = true
is_state blocked (some blocked) = true
is_state _ _ = false

-- `a := p.alloc[port]; a.SessionID`: a missing allocation is the zero one, with an empty session.
abbrev pub session_of : Option Allocation → Text
session_of none = []
session_of (some a) = a.session_id

-- `for i := start; i <= end; i++`
unfoldable pub count_up : ℕ → ℕ → List ℕ
count_up i zero = []
count_up i (suc n) = i ∷ count_up (i + 1) n

-- The pool of the ports from `s` to `e`, all idle.
abbrev pub idle_pool : Kind → ℕ → ℕ → Pool
idle_pool kind s e = record {
  kind = kind;
  ports = count_up s (suc e - s);
  state = λ p. if leb s p && leb p e then some idle else none;
  alloc = empty;
}

-- `start <= 0 || end <= 0 || end < start || end > 65535`
abbrev pub bad_range : ℤ → ℤ → Bool
bad_range start end =
    leb_ℤ start (pos 0) || leb_ℤ end (pos 0) || ltb_ℤ end start || ltb_ℤ (pos 65535) end

unfoldable pub new_pool : Kind → ℤ → ℤ → Result Pool
unfolding count_up
new_pool kind start end =
    if bad_range start end
    then err (plain (codes "invalid port range: " ++ integer start ++ codes "-" ++ integer end))
    else ok (idle_pool kind (pos_part start) (pos_part end))

unfoldable pub first_idle : Map PortStatus → List ℕ → Option ℕ
first_idle state [] = none
first_idle state (p ∷ ps) = if is_state idle (state p) then some p else first_idle state ps

-- The allocation that `Reserve` makes at the time `now`.
abbrev pub reservation : Pool → ℕ → Text → Text → Text → ℕ → Allocation
reservation p port session server client now = record {
  kind = p.kind;
  port = port;
  session_id = session;
  server_id = server;
  client_id = client;
  reserved_at = now;
}

abbrev pub reserve_at : Option ℕ → Text → Text → Text → ℕ → Pool → Pool × Result Allocation
reserve_at none session server client now p =
    (p, err (new code_unavailable (codes "no available port")))
reserve_at (some port) session server client now p =
    let a = reservation p port session server client now in
    (record p { state = put p.state port (some reserved); alloc = put p.alloc port (some a) }, ok a)

unfoldable pub reserve : Text → Text → Text → ℕ → Pool → Pool × Result Allocation
unfolding first_idle
reserve session server client now p =
    reserve_at (first_idle p.state p.ports) session server client now p

-- Printed with `%s`.
abbrev pub status_text : Option PortStatus → Text
status_text none = []
status_text (some s) = port_text s

abbrev pub is_none {ℓ} : {A : Type ℓ} → Option A → Bool
is_none none = true
is_none (some a) = false

unfoldable pub mark_occupied : ℕ → Text → Pool → Pool × Err
mark_occupied port session p =
    if not (is_state reserved (p.state port))
    then (
      p,
      coded code_conflict (codes "port not reserved")
          (plain (codes "port=" ++ decimal port ++ codes " state=" ++ status_text (p.state port))),
    )
    else if not (text_eq (session_of (p.alloc port)) session)
    then (
      p,
      coded code_conflict (codes "port reserved by another session")
          (plain (codes "port=" ++ decimal port)),
    )
    else (record p { state = put p.state port (some occupied) }, nil)

unfoldable pub release : ℕ → Text → Pool → Pool × Err
release port session p =
    if is_none (p.state port)
    then (p, coded code_bad_request (codes "unknown port") (plain (codes "port=" ++ decimal port)))
    else if is_state idle (p.state port)
    then (p, nil)
    else if not (is_blank session) && not (text_eq (session_of (p.alloc port)) session)
    then (p, coded code_conflict (codes "release conflict") (plain (codes "port=" ++ decimal port)))
    else (record p { alloc = put p.alloc port none; state = put p.state port (some idle) }, nil)

-- The reason is not kept.
unfoldable pub block : ℕ → Text → Pool → Pool × Err
block port reason p =
    if is_none (p.state port)
    then (p, coded code_bad_request (codes "unknown port") (plain (codes "port=" ++ decimal port)))
    else (record p { alloc = put p.alloc port none; state = put p.state port (some blocked) }, nil)

abbrev pub touch : ℕ → Text → ℕ → Pool → Option Allocation → Pool
touch port session now p none = p
touch port session now p (some a) =
    if not (text_eq a.session_id session)
    then p
    else record p { alloc = put p.alloc port (some (record a { reserved_at = now })) }

unfoldable pub touch_reservation : ℕ → Text → ℕ → Pool → Pool
touch_reservation port session now p =
    if port == 0 || is_blank session
    then p
    else if not (is_state reserved (p.state port))
    then p
    else touch port session now p (p.alloc port)

-- The allocation of a reserved port, `none` if it is missing: a reservation with no session is
-- dropped, one older than `max_age` is dropped and reported.
abbrev pub free_port : ℕ → Pool → Pool
free_port port p = record p { state = put p.state port (some idle); alloc = put p.alloc port none }

abbrev pub expire_alloc : ℕ → ℕ → ℕ → Option Allocation → Pool → Pool × List Allocation
expire_alloc now max_age port none p = (free_port port p, [])
expire_alloc now max_age port (some a) p =
    if is_blank a.session_id
    then (free_port port p, [])
    else if ltb (a.reserved_at + max_age) now
    then (free_port port p, a ∷ [])
    else (p, [])

-- One round of the loop over the map of states.
unfoldable pub expire_port : ℕ → ℕ → ℕ → Pool → Pool × List Allocation
expire_port now max_age port p =
    if not (is_state reserved (p.state port))
    then (p, [])
    else expire_alloc now max_age port (p.alloc port) p

-- Go ranges over the map in an order of its own: the keys in that order are an argument.
unfoldable pub release_expired : List ℕ → ℕ → ℕ → Pool → Pool × List Allocation
unfolding expire_port
release_expired [] now max_age p = (p, [])
release_expired (port ∷ order) now max_age p =
    let (p1, first) = expire_port now max_age port p in
    let (p2, rest) = release_expired order now max_age p1 in (p2, first ++ rest)

-- `Allocation`, with its `ok`.
unfoldable pub allocation : ℕ → Pool → Option Allocation
allocation port p = p.alloc port

pub record Snapshot : Type 0 where
  pub kind : Kind
  pub total : ℕ
  pub idle_count : ℕ
  pub reserved_count : ℕ
  pub occupied_count : ℕ
  pub blocked_count : ℕ
  pub idle_ports : List ℕ
  pub reserved_ports : List ℕ
  pub occupied_ports : List ℕ
  pub blocked_ports : List ℕ

-- One round of the loop of `Snapshot`, at a port and its status.
unfoldable pub count_port : Option PortStatus → ℕ → Snapshot → Snapshot
count_port none port s = s
count_port (some idle) port s = record s {
  idle_count = s.idle_count + 1;
  idle_ports = s.idle_ports ++ port ∷ [];
}
count_port (some reserved) port s = record s {
  reserved_count = s.reserved_count + 1;
  reserved_ports = s.reserved_ports ++ port ∷ [];
}
count_port (some occupied) port s = record s {
  occupied_count = s.occupied_count + 1;
  occupied_ports = s.occupied_ports ++ port ∷ [];
}
count_port (some blocked) port s = record s {
  blocked_count = s.blocked_count + 1;
  blocked_ports = s.blocked_ports ++ port ∷ [];
}

unfoldable pub count_ports : Map PortStatus → List ℕ → Snapshot → Snapshot
unfolding count_port
count_ports state [] s = s
count_ports state (p ∷ ps) s = count_ports state ps (count_port (state p) p s)

abbrev pub no_ports : Kind → Snapshot
no_ports kind = record {
  kind = kind;
  total = 0;
  idle_count = 0;
  reserved_count = 0;
  occupied_count = 0;
  blocked_count = 0;
  idle_ports = [];
  reserved_ports = [];
  occupied_ports = [];
  blocked_ports = [];
}

unfoldable pub snapshot : Pool → Snapshot
unfolding count_ports sort
snapshot p =
    let s = count_ports p.state p.ports (no_ports p.kind) in
    record s {
      idle_ports = sort s.idle_ports;
      reserved_ports = sort s.reserved_ports;
      occupied_ports = sort s.occupied_ports;
      blocked_ports = sort s.blocked_ports;
      total = length p.ports;
    }
