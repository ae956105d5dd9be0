-- ===== src/Relay/Tests.antt =====
-- A server over a pool of three ports, with one port reserved.
use relay_x.Prelude.{◌≡◌, true, false, refl, none, some, List, [], ◌∷◌, codes, arith}
use relay_x.Prelude.Int.{pos}
use relay_x.Status.{occupied}
use relay_x.Ports.Defs.{
  Pool, Allocation, zmq, idle_pool, new_pool, reserve, reservation, release_expired,
}
use relay_x.Ports.Valid
use relay_x.Ports.Valid.{new_pool-IsValid}
use relay_x.Ports.Lifecycle.{reserving}
use relay_x.Relay.Tcp.{Server, new_server, session_for}
use relay_x.Relay.Valid.{
  IsValid, Act, enqueuing, pairing, ending, freeing, pooling, acts, acts-new_server,
}
use relay_x.Relay.Sessions.{Waiting}
use relay_x.Relay.Pipe.{Round, timeout, no_error, pipe, new_flow}
use relay_x.Prelude.{map}
use relay_x.Relay.Srt.{new_srt_server}
use relay_x.Relay.Forget.{SrtAct, arriving, acting, forget, forget_act, srt_acts, forget-srt_acts}
use relay_x.Relay.Stale.{mixed, mixed_sessions}

abbrev pool : Pool
pool = idle_pool zmq 2300 2302

pool-IsValid : Valid.IsValid pool
unfolding new_pool
pool-IsValid = new_pool-IsValid zmq (pos 2300) (pos 2302) refl

abbrev script : List Act
script =
    pooling (reserving (codes "s") (codes "be") (codes "fe") 10)
    ∷ enqueuing 2300 (codes "client") 7
    ∷ enqueuing 2300 (codes "server") 8
    ∷ pairing 2300
    ∷ enqueuing 2300 (codes "client") 9
    ∷ ending 2300
    ∷ freeing 2300 (codes "s")
    ∷ []

acts-new_server_example : IsValid (acts script (new_server pool))
acts-new_server_example = acts-new_server script pool pool-IsValid

abbrev held : Pool
held = (reserve (codes "s") (codes "be") (codes "fe") 10 pool).0

abbrev first : Allocation
first = reservation pool 2300 (codes "s") (codes "be") (codes "fe") 10

abbrev server : Server
server = record {
  pool = held;
  listeners = λ port. none;
  pending_s = λ port. none;
  pending_c = λ port. none;
  sessions = λ port. none;
  closed = [];
  stopped = [];
}

server-Waiting : Waiting 2300 first server
unfolding reserve new_pool
server-Waiting = record {
  alloc = refl;
  reserved = refl;
  no_session = refl;
  no_server = refl;
  no_client = refl;
}

-- The reservation of time 10 runs out, and the port is reserved for the session "t" at time 91.
abbrev retaken : Pool
retaken =
    (reserve (codes "t") (codes "be2") (codes "fe2") 91
      (release_expired (2300 ∷ 2301 ∷ 2302 ∷ []) 90 50 held).0).0

abbrev second : Allocation
second = reservation pool 2300 (codes "t") (codes "be2") (codes "fe2") 91

mixed_sessions_example :
    ((mixed 2300 first second 8 9 retaken server).sessions 2300
      ≡ some (session_for 2300 second 9 8))
    × ((mixed 2300 first second 8 9 retaken server).pool.state 2300 ≡ some occupied)
unfolding reserve new_pool release_expired
mixed_sessions_example =
    mixed_sessions 2300 first second 8 9 retaken server server-Waiting refl refl (λ e. ground arith)

-- A whole write with a timeout, then a write that fails half way.
abbrev rounds : List Round
rounds =
    record {
      ctx_done = false;
      done = false;
      data_read = 1 ∷ 2 ∷ [];
      read_error = timeout;
      now = 5;
      taken = 2;
      write_failed = false;
    }
    ∷ record {
      ctx_done = false;
      done = false;
      data_read = 3 ∷ 4 ∷ 5 ∷ [];
      read_error = no_error;
      now = 6;
      taken = 1;
      write_failed = true;
    }
    ∷ []

rounds_carry : (pipe rounds (new_flow 0)).delivered ≡ 1 ∷ 2 ∷ 3 ∷ []
unfolding pipe
rounds_carry = refl

abbrev srt_script : List SrtAct
srt_script =
    arriving 2300 (codes "client") (record { raw = 17; bc = 7 })
    ∷ arriving 2300 (codes "server") (record { raw = 18; bc = 8 })
    ∷ acting (pairing 2300)
    ∷ arriving 2300 (codes "client") (record { raw = 19; bc = 9 })
    ∷ acting (ending 2300)
    ∷ []

forget-srt_acts_example :
    forget (srt_acts srt_script (new_srt_server held))
    ≡ acts (map forget_act srt_script) (forget (new_srt_server held))
forget-srt_acts_example = forget-srt_acts srt_script (new_srt_server held)
