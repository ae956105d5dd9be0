-- ===== src/Pipes/Writers.antt =====
-- v3/relay/pipe.go: the writers of a session keep what its directions carry.
use relay_x.Prelude.{
  ℕ, ◌≡◌, refl, ap, ◌∙◌, Option, none, some, ◌++◌, length, length-append, take, arith, subst,
}
use relay_x.Buffer.{
  Bytes, RingBuffer, buffer_size, Status, done, waits, buffer_closed, eof, read, close,
}
use relay_x.Buffer.Blocks.{contents}
use relay_x.Buffer.Reading.{Reads, read_lem}
use relay_x.Pipes.{
  IoError, writing_failed, Direction, failing, leaving, ended, Writer, receiving, sending,
  PipeSession, lane, set_lane, begin_stop, with_buffer,
}
use relay_x.Pipes.Steps.{received, writer_at, with_sent, sent_by}
use relay_x.Pipes.Lanes.{
  carried, Carries, AllLanes, set_lane-AllLanes, Carries-none, Carries-received, Carries-sent,
  Carries-failed,
}
use relay_x.Pipes.Delivery.{
  close-IsSound, set_writer-AllLanes, begin_stop-AllLanes, record_cause-AllLanes, GoesOn,
}

received-AllLanes :
    (max : ℕ) (d : Direction) (o : Option (Status × Bytes × RingBuffer)) (s : PipeSession)
    → (lane d s).writer ≡ receiving
    → Reads buffer_size (lane d s).buffer o
    → AllLanes max s
    → GoesOn max (received d o s)
received-AllLanes max d none s h r v = absurd r
received-AllLanes max d (some (done, p, rb)) s h (_, g) v =
    let l = lane d s in
    set_lane-AllLanes max d (record l { buffer = rb; writer = sending p }) s
      (record {
        sound = record {
          valid = g.valid;
          max_kept = g.max_kept ∙ (v d).sound.max_kept;
          bounded = omega (
            arith,
            (v d).sound.bounded,
            g.valid.counted,
            (v d).sound.valid.counted,
            ap length g.taken,
            length-append p (contents rb),
          );
        };
        in_order = λ f.
            Carries-received l.reader p l.got l.sent l.buffer rb g.taken (
              subst (λ w. Carries (carried w) l.reader l.got l.sent l.buffer) h ((v d).in_order f));
      })
      v
received-AllLanes max d (some (waits, p, rb)) s h r v = v
received-AllLanes max d (some (buffer_closed, p, rb)) s h r v =
    set_writer-AllLanes max d failing s refl v
received-AllLanes max d (some (eof, p, rb)) s h r v = set_writer-AllLanes max d failing s refl v

pub writer_at-AllLanes :
    (max : ℕ) (d : Direction) (w : Writer) (s : PipeSession)
    → (lane d s).writer ≡ w
    → AllLanes max s
    → GoesOn max (writer_at d w s)
writer_at-AllLanes max d receiving s h v =
    received-AllLanes max d (read buffer_size (lane d s).buffer) s h
      (read_lem buffer_size (lane d s).buffer (v d).sound.valid) v
writer_at-AllLanes max d (sending p) s h v = v
writer_at-AllLanes max d failing s h v =
    set_writer-AllLanes max d leaving (begin_stop s) refl (begin_stop-AllLanes max s v)
writer_at-AllLanes max d leaving s h v =
    let l = lane d s in
    set_lane-AllLanes max d (record (with_buffer close l) { writer = ended }) s
      (record {
        sound = close-IsSound max l.buffer (v d).sound;
        in_order =
            λ f. Carries-none (carried l.writer) l.reader l.got l.sent l.buffer ((v d).in_order f);
      })
      v
writer_at-AllLanes max d ended s h v = v

pub sent_by-AllLanes :
    (max : ℕ) (d : Direction) (w : Writer) (k : ℕ) (e : Option IoError) (s : PipeSession)
    → (lane d s).writer ≡ w
    → AllLanes max s
    → AllLanes max (sent_by d w k e s)
sent_by-AllLanes max d (sending p) k none s h v =
    let l = lane d s in
    set_lane-AllLanes max d (record (with_sent p l) { writer = receiving }) s
      (record {
        sound = (v d).sound;
        in_order = λ f.
            Carries-sent l.reader p l.got l.sent l.buffer (
              subst (λ w. Carries (carried w) l.reader l.got l.sent l.buffer) h ((v d).in_order f));
      })
      v
sent_by-AllLanes max d (sending p) k (some e) s h v =
    let l = lane d s in
    let l1 = record l { sent = l.sent ++ take k p; writer = failing } in
    record_cause-AllLanes max (writing_failed d e) (set_lane d l1 s) (
      set_lane-AllLanes max d l1 s
        (record {
          sound = (v d).sound;
          in_order = λ f. Carries-failed l.reader p l.got l.sent k l.buffer (
              subst (λ w. Carries (carried w) l.reader l.got l.sent l.buffer) h ((v d).in_order f));
        })
        v)
sent_by-AllLanes max d receiving k e s h v = v
sent_by-AllLanes max d failing k e s h v = v
sent_by-AllLanes max d leaving k e s h v = v
sent_by-AllLanes max d ended k e s h v = v
