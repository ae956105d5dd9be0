-- ===== src/Pipes.antt =====
-- v3/relay/pipe.go: a session that joins a front end and a back end by two ring buffers. Each of its four
-- goroutines, a reader and a writer for each direction, and the goroutine that is inside `Stop` take
-- steps; a step runs under at most one lock. What the connections do is data of the step. Logging and
-- deadlines are left out.
pub mod Steps
pub mod Lanes
pub mod Delivery
pub mod Writers
pub mod Carrying
mod Tests
use relay_x.Prelude.{
  ℕ, Bool, true, false, not, ◌&&◌, ◌||◌, Option, none, some, List, [], ◌∷◌, ◌++◌, Text, codes,
  length, take, map, if◌then◌else◌,
}
use relay_x.Buffer.{
  Bytes, RingBuffer, new_ring_buffer, buffer_size, Status, done, waits, buffer_closed, eof, Written,
  write, read, flush, close, close_write,
}
use relay_x.Relay.Hello.{strip_prefix, to_lower}
use relay_x.Relay.Pipe.{add64}

-- An error of a connection: whether it is `io.EOF`, `net.ErrClosed` or a timeout, and its text.
pub record IoError : Type 0 where
  pub is_eof : Bool
  pub is_closed : Bool
  pub is_timeout : Bool
  pub text : Text

pub data Direction : Type 0 where
  fe_to_be be_to_fe : Direction

pub data Cause : Type 0 where
  reading_failed writing_failed : Direction → IoError → Cause

abbrev pub has_prefix : Option Text → Bool
has_prefix none = false
has_prefix (some rest) = true

-- `strings.Contains`
unfoldable pub contains : Text → Text → Bool
unfolding strip_prefix
contains s [] = has_prefix (strip_prefix s [])
contains s (c ∷ t) = has_prefix (strip_prefix s (c ∷ t)) || contains s t

-- `isLikelyFEClosed`; the texts of errors are in ASCII.
unfoldable pub is_likely_fe_closed : IoError → Bool
unfolding contains to_lower
is_likely_fe_closed e =
    let s = map to_lower e.text in
    e.is_eof
    || e.is_closed
    || contains (codes "broken pipe") s
    || contains (codes "connection reset by peer") s
    || contains (codes "use of closed network connection") s

-- `shouldKeepBE`
unfoldable pub should_keep_be : Option Cause → Bool
unfolding is_likely_fe_closed
should_keep_be none = false
should_keep_be (some (reading_failed fe_to_be e)) = is_likely_fe_closed e
should_keep_be (some (writing_failed fe_to_be e)) = false
should_keep_be (some (reading_failed be_to_fe e)) = false
should_keep_be (some (writing_failed be_to_fe e)) = is_likely_fe_closed e

-- Where the first goroutine of `copyLoop` is: reading from the source, in `Write` of the buffer with
-- what remains and the error of the read, before its call of `Stop`, or before its deferred
-- `CloseWrite`.
pub data Reader : Type 0 where
  reading : Reader
  filling : Bytes → Option IoError → Reader
  failing leaving ended : Reader

-- Where the second is: in `Read` of the buffer, writing to the destination, and so on.
pub data Writer : Type 0 where
  receiving : Writer
  sending : Bytes → Writer
  failing leaving ended : Writer

-- A direction: its buffer, goroutines and counters, the bytes that came from the source and those that
-- the destination took, and whether `Stop` has thrown away the contents of the buffer.
pub record Lane : Type 0 where
  pub buffer : RingBuffer
  pub reader : Reader
  pub writer : Writer
  pub ingress : ℕ
  pub egress : ℕ
  pub got : Bytes
  pub sent : Bytes
  pub flushed : Bool

-- What `Stop` does after its first lines.
pub data StopAct : Type 0 where
  closing_fe closing_be : StopAct
  flushing closing_write closing : Direction → StopAct

pub record PipeSession : Type 0 where
  pub to_be : Lane
  pub to_fe : Lane
  pub cause : Option Cause
  pub keep_be : Bool
  pub stopping : Bool
  pub to_do : List StopAct
  pub fe_closed : Bool
  pub be_closed : Bool

abbrev pub new_lane : ℕ → Lane
new_lane max = record {
  buffer = new_ring_buffer max;
  reader = reading;
  writer = receiving;
  ingress = 0;
  egress = 0;
  got = [];
  sent = [];
  flushed = false;
}

-- `NewPipeSession`, started.
unfoldable pub new_pipe_session : ℕ → PipeSession
unfolding new_ring_buffer
new_pipe_session max = record {
  to_be = new_lane max;
  to_fe = new_lane max;
  cause = none;
  keep_be = false;
  stopping = false;
  to_do = [];
  fe_closed = false;
  be_closed = false;
}

abbrev pub lane : Direction → PipeSession → Lane
lane fe_to_be s = s.to_be
lane be_to_fe s = s.to_fe

abbrev pub set_lane : Direction → Lane → PipeSession → PipeSession
set_lane fe_to_be l s = record s { to_be = l }
set_lane be_to_fe l s = record s { to_fe = l }

-- `recordCause`
abbrev pub record_cause : Cause → PipeSession → PipeSession
record_cause c s = record s { cause = elim s.cause [ none ↦ some c | some d ↦ some d ] }

abbrev pub stop_acts : List StopAct
stop_acts =
    closing_fe
    ∷ closing_be
    ∷ flushing fe_to_be
    ∷ flushing be_to_fe
    ∷ closing_write fe_to_be
    ∷ closing_write be_to_fe
    ∷ closing fe_to_be
    ∷ closing be_to_fe
    ∷ []

-- The beginning of `Stop`, once.
unfoldable pub begin_stop : PipeSession → PipeSession
unfolding should_keep_be
begin_stop s =
    if s.stopping
    then s
    else record s { stopping = true; keep_be = should_keep_be s.cause; to_do = stop_acts }

abbrev pub with_buffer : (RingBuffer → RingBuffer) → Lane → Lane
with_buffer f l = record l { buffer = f l.buffer }

abbrev pub stop_act : StopAct → PipeSession → PipeSession
stop_act closing_fe s = record s { fe_closed = true }
stop_act closing_be s = record s { be_closed = s.be_closed || not s.keep_be }
stop_act (flushing d) s =
    set_lane d (record (lane d s) { buffer = flush (lane d s).buffer; flushed = true }) s
stop_act (closing_write d) s = set_lane d (with_buffer close_write (lane d s)) s
stop_act (closing d) s = set_lane d (record (with_buffer close (lane d s)) { flushed = true }) s

abbrev pub stop_next : List StopAct → PipeSession → PipeSession
stop_next [] s = s
stop_next (a ∷ rest) s = stop_act a (record s { to_do = rest })

-- The goroutine inside `Stop` takes its next step.
unfoldable pub stop_step : PipeSession → PipeSession
unfolding flush close close_write
stop_step s = stop_next s.to_do s
