-- ===== src/Relay/Duplex.antt =====
-- v4/relay/session.go: a whole session, whose two directions run at the same time; v4/relay/manager.go: the
-- check of heartbeats. A round of a direction, and a call of `Stop`, is one step. Times are nanoseconds.
pub mod Safe
pub mod Ending
mod Tests
use relay_x.Prelude.{
  ℕ, ◌+◌, ◌-◌, ◌*◌, ◌^◌, Bool, true, false, ◌||◌, ◌&&◌, List, [], ◌∷◌, ltb, map, if◌then◌else◌,
}
use relay_x.Ports.Defs.{Pool, release_expired}
use relay_x.Relay.Pipe.{Round, Flow, new_flow, pipe}

pub data Way : Type 0 where
  fe_to_be be_to_fe : Way

-- The two directions, each with its counters and the time of its last read, and whether their goroutines
-- have ended; whether `Stop` ran; the connections that were closed, latest first; and how often the
-- callback of the session was called.
pub record Duplex : Type 0 where
  pub fe : ℕ
  pub be : ℕ
  pub fe_flow : Flow
  pub be_flow : Flow
  pub fe_ended : Bool
  pub be_ended : Bool
  pub done : Bool
  pub closed : List ℕ
  pub called : ℕ

-- `NewSession`, at time `now`.
unfoldable pub new_duplex : ℕ → ℕ → ℕ → Duplex
new_duplex fe be now = record {
  fe = fe;
  be = be;
  fe_flow = new_flow now;
  be_flow = new_flow now;
  fe_ended = false;
  be_ended = false;
  done = false;
  closed = [];
  called = 0;
}

-- `Stop`, once for a session.
unfoldable pub stop_duplex : Duplex → Duplex
stop_duplex s = if s.done then s else record s { done = true; closed = s.be ∷ s.fe ∷ s.closed }

abbrev pub with_flow : Way → Flow → Duplex → Duplex
with_flow fe_to_be f s = record s { fe_flow = f }
with_flow be_to_fe f s = record s { be_flow = f }

abbrev pub end_way : Way → Duplex → Duplex
end_way fe_to_be s = record s { fe_ended = true }
end_way be_to_fe s = record s { be_ended = true }

-- After a round that ran: the goroutine goes on, or stops the session and ends.
abbrev pub after_round : Way → Flow → Duplex → Duplex
after_round way f s =
    let t = stop_duplex (end_way way (with_flow way f s)) in
    if f.stopped then t else with_flow way f s

abbrev pub round_of : Way → Round → Flow → Duplex → Duplex
round_of way r f s =
    let t = after_round way (pipe (r ∷ []) f) s in if r.ctx_done || r.done then end_way way s else t

-- A round of the loop of `pipe`, unless its goroutine has ended.
unfoldable pub run_round : Way → Round → Duplex → Duplex
unfolding pipe stop_duplex
run_round fe_to_be r s =
    let t = round_of fe_to_be (record r { done = s.done }) s.fe_flow s in
    if s.fe_ended then s else t
run_round be_to_fe r s =
    let t = round_of be_to_fe (record r { done = s.done }) s.be_flow s in
    if s.be_ended then s else t

-- The deferred end of `Start`, when both goroutines have ended. One goroutine waits for them, so it runs once.
unfoldable pub finish : Duplex → Duplex
unfolding stop_duplex
finish s =
    let t = stop_duplex s in
    if s.fe_ended && s.be_ended && ltb s.called 1 then record t { called = s.called + 1 } else s

-- `LastReadAges`; an age that would be negative is 0.
abbrev pub last_read_ages : ℕ → Duplex → ℕ × ℕ
last_read_ages now s = (now - s.fe_flow.last_read, now - s.be_flow.last_read)

abbrev pub second : ℕ
second = 10 ^ 9

-- The round of `checkHeartbeats` for a session.
unfoldable pub check_heartbeat : ℕ → Duplex → Duplex
unfolding stop_duplex
check_heartbeat now s =
    let (fe_age, be_age) = last_read_ages now s in
    if ltb (6 * second) fe_age || ltb (6 * second) be_age then stop_duplex s else s

pub record Manager : Type 0 where
  pub auth_timeout : ℕ
  pub zmq_pool : Pool
  pub srt_pool : Pool
  pub zmq_sessions : List Duplex
  pub srt_sessions : List Duplex

-- `checkHeartbeats`, with the order in which Go visits each pool.
unfoldable pub check_heartbeats : List ℕ → List ℕ → ℕ → Manager → Manager
unfolding release_expired check_heartbeat
check_heartbeats zmq_order srt_order now m = record m {
  zmq_pool = (release_expired zmq_order now m.auth_timeout m.zmq_pool).0;
  srt_pool = (release_expired srt_order now m.auth_timeout m.srt_pool).0;
  zmq_sessions = map (check_heartbeat now) m.zmq_sessions;
  srt_sessions = map (check_heartbeat now) m.srt_sessions;
}
