-- ===== src/Pipes/Steps.antt =====
-- v3/relay/pipe.go: the steps of `copyLoop`.
use relay_x.Prelude.{ℕ, Bool, Option, none, some, List, [], ◌∷◌, ◌++◌, length, take, if◌then◌else◌}
use relay_x.Buffer.{
  Bytes, RingBuffer, buffer_size, Status, done, waits, buffer_closed, eof, Written, write, read,
  close, close_write,
}
use relay_x.Relay.Pipe.{add64}
use relay_x.Pipes.{
  IoError, Direction, reading_failed, writing_failed, Reader, reading, filling, failing, leaving,
  ended, Writer, receiving, sending, Lane, PipeSession, lane, set_lane, record_cause, begin_stop,
  with_buffer, stop_step,
}

-- What follows the call of `Write` of the buffer, by the error of the read.
abbrev pub read_on : Bool → Option IoError → Reader
read_on stopping none = if stopping then leaving else reading
read_on stopping (some e) = if e.is_timeout then if stopping then leaving else reading else failing

abbrev pub fatal : Direction → Option IoError → PipeSession → PipeSession
fatal d none s = s
fatal d (some e) s = if e.is_timeout then s else record_cause (reading_failed d e) s

abbrev pub set_reader : Direction → Reader → PipeSession → PipeSession
set_reader d r s = set_lane d (record (lane d s) { reader = r }) s

abbrev pub set_writer : Direction → Writer → PipeSession → PipeSession
set_writer d w s = set_lane d (record (lane d s) { writer = w }) s

abbrev pub with_got : Bytes → Lane → Lane
with_got p l = record l { ingress = add64 l.ingress (length p); got = l.got ++ p }

abbrev pub read_by : Direction → Reader → Bytes → Option IoError → PipeSession → PipeSession
read_by d reading [] e s = fatal d e (set_reader d (read_on s.stopping e) s)
read_by d reading (b ∷ p) e s =
    set_lane d (record (with_got (b ∷ p) (lane d s)) { reader = filling (b ∷ p) e }) s
read_by d r p e s = s

-- `src.Read` returns these bytes and this error.
unfoldable pub read_src : Direction → Bytes → Option IoError → PipeSession → PipeSession
read_src d p e s = read_by d (lane d s).reader p e s

-- The place of the reader after a call of `Write` of the buffer.
abbrev pub reader_after : Status → Bool → Bytes → Option IoError → Reader
reader_after done stopping left e = read_on stopping e
reader_after waits stopping left e = filling left e
reader_after buffer_closed stopping left e = failing
reader_after eof stopping left e = failing

abbrev pub fatal_after : Status → Direction → Option IoError → PipeSession → PipeSession
fatal_after done d e s = fatal d e s
fatal_after waits d e s = s
fatal_after buffer_closed d e s = s
fatal_after eof d e s = s

abbrev pub filled : Direction → Written → Option IoError → PipeSession → PipeSession
filled d out e s =
    let r = reader_after out.status s.stopping out.remaining e in
    fatal_after out.status d e
      (set_lane d (record (lane d s) { buffer = out.buffer; reader = r }) s)

abbrev pub reader_at : Direction → (ℕ → Bytes) → Reader → PipeSession → PipeSession
reader_at d fresh reading s = s
reader_at d fresh (filling p e) s = filled d (write fresh p (lane d s).buffer) e s
reader_at d fresh failing s = set_reader d leaving (begin_stop s)
reader_at d fresh leaving s =
    set_lane d (record (with_buffer close_write (lane d s)) { reader = ended }) s
reader_at d fresh ended s = s

-- The reader goes on: in `Write` of the buffer, to its call of `Stop`, or to its end.
unfoldable pub reader_step : Direction → (ℕ → Bytes) → PipeSession → PipeSession
unfolding write begin_stop close_write
reader_step d fresh s = reader_at d fresh (lane d s).reader s

abbrev pub received :
    Direction → Option (Status × Bytes × RingBuffer) → PipeSession → Option PipeSession
received d none s = none
received d (some (done, p, rb)) s =
    some (set_lane d (record (lane d s) { buffer = rb; writer = sending p }) s)
received d (some (waits, p, rb)) s = some s
received d (some (buffer_closed, p, rb)) s = some (set_writer d failing s)
received d (some (eof, p, rb)) s = some (set_writer d failing s)

abbrev pub writer_at : Direction → Writer → PipeSession → Option PipeSession
writer_at d receiving s = received d (read buffer_size (lane d s).buffer) s
writer_at d (sending p) s = some s
writer_at d failing s = some (set_writer d leaving (begin_stop s))
writer_at d leaving s =
    some (set_lane d (record (with_buffer close (lane d s)) { writer = ended }) s)
writer_at d ended s = some s

-- The writer goes on: in `Read` of the buffer, to its call of `Stop`, or to its end. `none` is a panic.
unfoldable pub writer_step : Direction → PipeSession → Option PipeSession
unfolding read begin_stop close
writer_step d s = writer_at d (lane d s).writer s

abbrev pub with_sent : Bytes → Lane → Lane
with_sent p l = record l { egress = add64 l.egress (length p); sent = l.sent ++ p }

abbrev pub sent_by : Direction → Writer → ℕ → Option IoError → PipeSession → PipeSession
sent_by d (sending p) taken none s =
    set_lane d (record (with_sent p (lane d s)) { writer = receiving }) s
sent_by d (sending p) taken (some e) s =
    record_cause (writing_failed d e) (
      set_lane d (record (lane d s) { sent = (lane d s).sent ++ take taken p; writer = failing }) s)
sent_by d w taken e s = s

-- `dst.Write` returns: all is taken, or the first bytes and an error.
unfoldable pub write_dst : Direction → ℕ → Option IoError → PipeSession → PipeSession
write_dst d taken e s = sent_by d (lane d s).writer taken e s

-- The steps of a session. Anyone may call `Stop`.
pub data Step : Type 0 where
  source_read : Direction → Bytes → Option IoError → Step
  reader_goes : Direction → (ℕ → Bytes) → Step
  writer_goes : Direction → Step
  destination_written : Direction → ℕ → Option IoError → Step
  stop_called stop_goes : Step

unfoldable pub step : Step → PipeSession → Option PipeSession
unfolding read_src reader_step writer_step write_dst begin_stop stop_step
step (source_read d p e) s = some (read_src d p e s)
step (reader_goes d fresh) s = some (reader_step d fresh s)
step (writer_goes d) s = writer_step d s
step (destination_written d taken e) s = some (write_dst d taken e s)
step stop_called s = some (begin_stop s)
step stop_goes s = some (stop_step s)

abbrev pub then_steps : (PipeSession → Option PipeSession) → Option PipeSession → Option PipeSession
then_steps next none = none
then_steps next (some s) = next s

unfoldable pub steps : List Step → PipeSession → Option PipeSession
unfolding step
steps [] s = some s
steps (x ∷ xs) s = then_steps (steps xs) (step x s)
