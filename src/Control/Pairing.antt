-- ===== src/Control/Pairing.antt =====
-- v4/control/server.go: pairing a client with a server. `newID` is an argument where it is called.
use relay_x.Prelude.{
  ℕ, zero, suc, ◌+◌, Bool, true, false, ◌&&◌, not, Option, none, some, List, [], ◌∷◌, ◌++◌, Text,
  codes, is_blank, text_eq, length, ◌==◌, ltb, if◌then◌else◌,
}
use relay_x.Prelude.Int.{ℤ, pos, leb_ℤ, ltb_ℤ, ◌-ℤ◌}
use relay_x.Prelude.Sorting.{sort}
use relay_x.Prelude.Assoc.{lookup, text_key}
use relay_x.Errors.{
  Err, Result, ok, err, new, code, error_text, code_bad_request, code_unavailable,
  code_no_port_timeout,
}
use relay_x.Ports.Defs.{Pool, Allocation, snapshot, allocation, reserve, release}
use relay_x.Control.Protocol.{PairRequest, PairGrant, Outgoing, pair_grant, pair_error, error}
use relay_x.Control.Hub.{Hub, Client, is_client}

abbrev pub owned_by : Text → Option Allocation → Bool
owned_by server_id none = false
owned_by server_id (some a) = text_eq a.server_id server_id

-- The loop of `poolOccupiedPorts`.
unfoldable pub owned_ports : Pool → Text → List ℕ → List ℕ
unfolding allocation
owned_ports p server_id [] = []
owned_ports p server_id (port ∷ ports) =
    let rest = owned_ports p server_id ports in
    if owned_by server_id (allocation port p) then port ∷ rest else rest

unfoldable pub pool_occupied_ports : Pool → Text → List ℕ
unfolding owned_ports snapshot
pool_occupied_ports p server_id = owned_ports p server_id (snapshot p).occupied_ports

unfoldable pub occupied_ports_for_server : Pool → Pool → Text → List ℕ
unfolding pool_occupied_ports sort
occupied_ports_for_server zmq srt server_id =
    sort (pool_occupied_ports zmq server_id ++ pool_occupied_ports srt server_id)

pub record Candidate : Type 0 where
  pub server : Client
  pub remaining : ℤ

-- `s.MaxConn - used`
unfoldable pub remaining_of : Hub → Client → ℤ
unfolding occupied_ports_for_server ◌-ℤ◌
remaining_of h s = s.max_conn -ℤ pos (length (occupied_ports_for_server h.zmq_pool h.srt_pool s.id))

unfoldable pub candidates : Hub → List Client → List Candidate
unfolding remaining_of
candidates h [] = []
candidates h (s ∷ ss) =
    let rest = candidates h ss in
    if leb_ℤ (remaining_of h s) (pos 0)
    then rest
    else record { server = s; remaining = remaining_of h s } ∷ rest

-- `<` on strings.
unfoldable pub text_lt : Text → Text → Bool
text_lt r [] = false
text_lt [] (b ∷ s) = true
text_lt (a ∷ r) (b ∷ s) = if a == b then text_lt r s else ltb a b

-- The order that `sort.Slice` sorts by.
unfoldable pub before : Candidate → Candidate → Bool
unfolding text_lt
before a b =
    if leb_ℤ a.remaining b.remaining && leb_ℤ b.remaining a.remaining
    then text_lt a.server.id b.server.id
    else ltb_ℤ b.remaining a.remaining

unfoldable pub insert_candidate : Candidate → List Candidate → List Candidate
unfolding before
insert_candidate c [] = c ∷ []
insert_candidate c (d ∷ ds) = if before d c then d ∷ insert_candidate c ds else c ∷ d ∷ ds

unfoldable pub sort_candidates : List Candidate → List Candidate
unfolding insert_candidate
sort_candidates [] = []
sort_candidates (c ∷ cs) = insert_candidate c (sort_candidates cs)

unfoldable pub values {ℓ κ} : {K : Type ℓ} {V : Type κ} → List (K × V) → List V
values [] = []
values ((k, v) ∷ m) = v ∷ values m

abbrev pub listed_one {ℓ} : {A : Type ℓ} → Option A → List A
listed_one none = []
listed_one (some a) = a ∷ []

-- The servers that a request may be paired with.
unfoldable pub eligible : PairRequest → Hub → List Client
unfolding values
eligible pr h =
    if is_blank pr.server_id then values h.servers else listed_one (lookup pr.server_id h.servers)

abbrev pub taken : Pool × Result Allocation → Pool × Result ℕ
taken (q, ok a) = (q, ok a.port)
taken (q, err e) = (q, err e)

-- `if need { a, err := pool.Reserve(...) }`: the port is 0 if it is not needed.
unfoldable pub reserve_port : Bool → Text → Text → Text → ℕ → Pool → Pool × Result ℕ
reserve_port false session server client now p = (p, ok 0)
reserve_port true session server client now p = taken (reserve session server client now p)

abbrev pub grant_of : Client → Client → PairRequest → Text → ℕ → ℕ → PairGrant
grant_of server c pr session zmq_port srt_port = record {
  request_id = pr.request_id;
  session_id = session;
  server_id = server.id;
  client_id = c.id;
  server_token = server.token;
  client_token = c.token;
  zmq_port = zmq_port;
  srt_port = srt_port;
}

-- What follows the reservation of the SRT port: the ZMQ port is given back if that failed.
abbrev pub srt_reserved :
    Client → Client → PairRequest → Text → ℕ → Pool → Pool × Result ℕ → Hub → Hub × Result PairGrant
srt_reserved server c pr session zmq_port z (s, err e) h = (
  record h { zmq_pool = if zmq_port == 0 then z else (release zmq_port session z).0; srt_pool = s },
  err e,
)
srt_reserved server c pr session zmq_port z (s, ok srt_port) h =
    if zmq_port == 0 && srt_port == 0
    then (
      record h { zmq_pool = z; srt_pool = s },
      err (new code_bad_request (codes "need_zmq/need_srt both false")),
    )
    else (
      record h { zmq_pool = z; srt_pool = s },
      ok (grant_of server c pr session zmq_port srt_port),
    )

-- What follows the reservation of the ZMQ port.
abbrev pub zmq_reserved :
    Client → Client → PairRequest → Text → ℕ → Pool × Result ℕ → Hub → Hub × Result PairGrant
zmq_reserved server c pr session now (z, err e) h = (record h { zmq_pool = z }, err e)
zmq_reserved server c pr session now (z, ok zmq_port) h =
    srt_reserved server c pr session zmq_port z
      (reserve_port pr.need_srt session server.id c.id now h.srt_pool) h

-- The end of `tryPairOnce`, from `server := cands[0].c` on.
unfoldable pub pair_with : Client → Client → PairRequest → Text → ℕ → Hub → Hub × Result PairGrant
unfolding reserve_port
pair_with server c pr session now h =
    zmq_reserved server c pr session now
      (reserve_port pr.need_zmq session server.id c.id now h.zmq_pool) h

abbrev pub pair_best :
    List Candidate → Client → PairRequest → Text → ℕ → Hub → Hub × Result PairGrant
pair_best [] c pr session now h = (h, err (new code_unavailable (codes "no server capacity")))
pair_best (best ∷ rest) c pr session now h = pair_with best.server c pr session now h

abbrev pub pair_among : List Client → Client → PairRequest → Text → ℕ → Hub → Hub × Result PairGrant
pair_among [] c pr session now h = (h, err (new code_unavailable (codes "no server online")))
pair_among (s ∷ ss) c pr session now h =
    pair_best (sort_candidates (candidates h (s ∷ ss))) c pr session now h

-- The locks of the hub and of the two pools that it takes in turn are one undisturbed step.
unfoldable pub try_pair_once : Client → PairRequest → Text → ℕ → Hub → Hub × Result PairGrant
unfolding eligible sort_candidates candidates pair_with
try_pair_once c pr session now h = pair_among (eligible pr h) c pr session now h

-- What the rest of the gateway does around the tries of one loop: `done` is the context's end,
-- `meanwhile` the changes between the two locks of a successful try, `asleep` those of the five
-- seconds after a failed one.
pub record Surroundings : Type 0 where
  pub done : ℕ → Bool
  pub new_id : ℕ → Text
  pub now : ℕ → ℕ
  pub meanwhile : ℕ → Hub → Hub
  pub asleep : ℕ → Hub → Hub

abbrev pub to_server : Option Client → PairGrant → List (ℕ × Outgoing)
to_server none g = []
to_server (some s) g = (s.conn, pair_grant g) ∷ []

abbrev is_unavailable : Err → Bool
is_unavailable e = code e == code_unavailable

-- What the loop does with the result of a try; `again` is the rest of the loop.
abbrev pub tried :
    (Hub → Hub × List (ℕ × Outgoing))
    → (Hub → Hub)
    → Client
    → Hub × Result PairGrant
    → Hub × List (ℕ × Outgoing)
tried again meanwhile c (h, ok g) =
    let h2 = meanwhile h in
    (h2, (c.conn, pair_grant g) ∷ to_server (lookup g.server_id h2.servers) g)
tried again meanwhile c (h, err e) =
    if is_unavailable e then again h else (h, (c.conn, pair_error (code e) (error_text e)) ∷ [])

-- The loop with the tries that are left, and the number of the next.
unfoldable pub pair_loop_from :
    ℕ → ℕ → Surroundings → Client → PairRequest → Hub → Hub × List (ℕ × Outgoing)
unfolding code error_text
pair_loop_from zero i w c pr h =
    (h, (c.conn, pair_error code_no_port_timeout (codes "no port available")) ∷ [])
pair_loop_from (suc n) i w c pr h =
    let rest = λ (h1 : Hub). pair_loop_from n (i + 1) w c pr (w.asleep i h1) in
    if w.done i
    then (h, [])
    else tried rest (w.meanwhile i) c (try_pair_once c pr (w.new_id i) (w.now i) h)

abbrev pub max_tries : ℕ
max_tries = 50

unfoldable pub pair_loop : Surroundings → Client → PairRequest → Hub → Hub × List (ℕ × Outgoing)
unfolding pair_loop_from
pair_loop = pair_loop_from max_tries 0

-- `handlePairRequest`: a reply, or a loop to start, for which an empty request id is filled in.
pub data Handled : Type 0 where
  replies : ℕ → Outgoing → Handled
  starts : Client → PairRequest → Handled

unfoldable pub handle_pair_request : Text → Client → PairRequest → Handled
handle_pair_request fresh c pr =
    if not (is_client c.role)
    then replies c.conn (error code_bad_request (codes "only client can pair_request"))
    else starts c
        (record pr { request_id = if is_blank pr.request_id then fresh else pr.request_id })
