-- ===== src/Relay/Pipe.antt =====
-- v4/relay/session.go: one direction of a session, as the sequence of its loop's rounds. What the
-- connections do in a round is data of the round. Logging and deadlines are left out.
use relay_x.Prelude.{
  ℕ, ◌+◌, ◌%◌, ◌^◌, Bool, true, false, ◌||◌, List, [], ◌∷◌, ◌++◌, length, take, if◌then◌else◌,
}

-- What `Read` returns for an error.
pub data ReadError : Type 0 where
  no_error timeout eof closed other : ReadError

-- One round: whether the context or the session is done, the bytes and the error of `Read`, the time,
-- and the number of bytes that `Write` took and whether it failed.
pub record Round : Type 0 where
  pub ctx_done : Bool
  pub done : Bool
  pub data_read : List ℕ
  pub read_error : ReadError
  pub now : ℕ
  pub taken : ℕ
  pub write_failed : Bool

-- The counters are 64 bits wide. `received` and `delivered` log the bytes read and the bytes that the
-- other end took.
pub record Flow : Type 0 where
  pub in_count : ℕ
  pub out_count : ℕ
  pub last_read : ℕ
  pub stopped : Bool
  pub received : List ℕ
  pub delivered : List ℕ

abbrev pub add64 : ℕ → ℕ → ℕ
add64 a n = (a + n) % 2 ^ 64

-- `if n > 0 { ... }`, up to the test of the write's error.
abbrev pub moved : Round → Flow → Flow
moved r f = record f {
  in_count = add64 f.in_count (length r.data_read);
  last_read = r.now;
  out_count = add64 f.out_count r.taken;
  received = f.received ++ r.data_read;
  delivered = f.delivered ++ take r.taken r.data_read;
}

abbrev pub stop : Flow → Flow
stop f = record f { stopped = true }

-- The tests of the read's error: on a timeout, as without an error, the loop goes on.
abbrev pub after_read : (Flow → Flow) → ReadError → Flow → Flow
after_read again no_error f = again f
after_read again timeout f = again f
after_read again eof f = stop f
after_read again closed f = stop f
after_read again other f = stop f

abbrev pub transfer : (Flow → Flow) → Round → List ℕ → Flow → Flow
transfer again r [] f = after_read again r.read_error f
transfer again r (b ∷ s) f =
    if r.write_failed then stop (moved r f) else after_read again r.read_error (moved r f)

-- The loop, for as many rounds as are given.
unfoldable pub pipe : List Round → Flow → Flow
pipe [] f = f
pipe (r ∷ rs) f = if r.ctx_done || r.done then f else transfer (pipe rs) r r.data_read f

-- `NewSession`, for one direction.
abbrev pub new_flow : ℕ → Flow
new_flow now = record {
  in_count = 0;
  out_count = 0;
  last_read = now;
  stopped = false;
  received = [];
  delivered = [];
}
