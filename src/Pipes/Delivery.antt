-- ===== src/Pipes/Delivery.antt =====
-- v3/relay/pipe.go: the readers of a session keep what its directions carry.
use relay_x.Prelude.{
  if_both, ℕ, ◌≡◌, refl, sym, ◌∙◌, Bool, true, false, Option, none, some, [], ◌∷◌, ◌++◌, length,
  take, drop, arith, subst,
}
use relay_x.Buffer.{
  Bytes, RingBuffer, buffer_size, Status, done, waits, buffer_closed, eof, Written, write, close,
  close_write, cleanup,
}
use relay_x.Buffer.Blocks.{contents}
use relay_x.Buffer.Writing.{Took, Ending, write_lem}
use relay_x.Pipes.{
  IoError, Cause, record_cause, Direction, fe_to_be, be_to_fe, Reader, reading, filling, failing,
  leaving, ended, Writer, Lane, PipeSession, lane, set_lane, begin_stop, with_buffer,
}
use relay_x.Pipes.Steps.{
  read_on, fatal, fatal_after, reader_after, set_reader, set_writer, with_got, read_by, filled,
  reader_at,
}
use relay_x.Pipes.Lanes.{
  IsSound, Pending, carried, Carries, IsLane, AllLanes, set_lane-AllLanes, Carries-reader,
  Carries-none, Carries-got, Carries-filled,
}

pub cleanup-IsSound : (max : ℕ) (rb : RingBuffer) → rb.max_size ≡ max → IsSound max (cleanup rb)
unfolding cleanup
cleanup-IsSound max rb e = record {
  valid = record { sized = tt; in_place = (refl, refl); counted = refl };
  max_kept = e;
  bounded = omega arith;
}

pub close-IsSound : (max : ℕ) (rb : RingBuffer) → IsSound max rb → IsSound max (close rb)
unfolding close
close-IsSound max rb v =
    if_both (IsSound max) rb.closed v (cleanup-IsSound max (record rb { closed = true }) v.max_kept)

pub close_write-IsSound :
    (max : ℕ) (rb : RingBuffer) → IsSound max rb → IsSound max (close_write rb)
unfolding close_write
close_write-IsSound max rb v = record {
  valid = record { sized = v.valid.sized; in_place = v.valid.in_place; counted = v.valid.counted };
  max_kept = v.max_kept;
  bounded = v.bounded;
}

Took-IsSound :
    (max : ℕ) (rb : RingBuffer) (p : Bytes) (out : Written)
    → IsSound max rb
    → Took rb 0 p out
    → IsSound max out.buffer
Took-IsSound max rb p out v t = record {
  valid = t.valid;
  max_kept = t.max_kept ∙ v.max_kept;
  bounded = ground (arith, t.bounded, v.bounded, v.max_kept);
}

-- A step of a reader changes its place in its direction only.
pub set_reader-AllLanes :
    (max : ℕ) (d : Direction) (r : Reader) (s : PipeSession)
    → ((rest : Bytes) → Pending (lane d s).reader rest → Pending r rest)
    → AllLanes max s
    → AllLanes max (set_reader d r s)
set_reader-AllLanes max d r s f v =
    let l = lane d s in
    set_lane-AllLanes max d (record l { reader = r }) s
      (record {
        sound = (v d).sound;
        in_order = λ h.
            Carries-reader (carried l.writer) l.reader r l.got l.sent l.buffer f ((v d).in_order h);
      })
      v

pub set_writer-AllLanes :
    (max : ℕ) (d : Direction) (w : Writer) (s : PipeSession)
    → carried w ≡ none
    → AllLanes max s
    → AllLanes max (set_writer d w s)
set_writer-AllLanes max d w s e v =
    let l = lane d s in
    set_lane-AllLanes max d (record l { writer = w }) s
      (record {
        sound = (v d).sound;
        in_order = λ h.
            rw e
              (Carries-none (carried l.writer) l.reader l.got l.sent l.buffer ((v d).in_order h));
      })
      v

fatal-AllLanes :
    (max : ℕ) (d : Direction) (e : Option IoError) (s : PipeSession)
    → AllLanes max s
    → AllLanes max (fatal d e s)
fatal-AllLanes max d none s v = v
fatal-AllLanes max d (some e) s v =
    if_both (AllLanes max) e.is_timeout v (elim [ fe_to_be ↦ v fe_to_be | be_to_fe ↦ v be_to_fe ])

pub begin_stop-AllLanes : (max : ℕ) (s : PipeSession) → AllLanes max s → AllLanes max (begin_stop s)
unfolding begin_stop
begin_stop-AllLanes max s v =
    if_both (AllLanes max) s.stopping v (elim [ fe_to_be ↦ v fe_to_be | be_to_fe ↦ v be_to_fe ])

-- A reader that goes on reading, stops or leaves holds nothing that counts.
Pending-read_on : (stopping : Bool) (e : Option IoError) → Pending (read_on stopping e) []
Pending-read_on true none = tt
Pending-read_on false none = refl
Pending-read_on true (some e) = if_both (λ r. Pending r []) e.is_timeout tt tt
Pending-read_on false (some e) = if_both (λ r. Pending r []) e.is_timeout refl tt

pub close_write-Carries :
    (o : Option Bytes) (r : Reader) (got sent : Bytes) (rb : RingBuffer)
    → Carries o r got sent rb
    → Carries o r got sent (close_write rb)
unfolding close_write
close_write-Carries none r got sent rb c = c
close_write-Carries (some q) r got sent rb c = c

abbrev pub GoesOn : ℕ → Option PipeSession → Type 0
GoesOn max none = ⊥
GoesOn max (some s) = AllLanes max s

pub record_cause-AllLanes :
    (max : ℕ) (c : Cause) (s : PipeSession) → AllLanes max s → AllLanes max (record_cause c s)
record_cause-AllLanes max c s v = elim [ fe_to_be ↦ v fe_to_be | be_to_fe ↦ v be_to_fe ]

pub read_by-AllLanes :
    (max : ℕ) (d : Direction) (r : Reader) (p : Bytes) (e : Option IoError) (s : PipeSession)
    → (lane d s).reader ≡ r
    → AllLanes max s
    → AllLanes max (read_by d r p e s)
read_by-AllLanes max d reading [] e s h v =
    fatal-AllLanes max d e (set_reader d (read_on s.stopping e) s) (
      set_reader-AllLanes max d (read_on s.stopping e) s
        (λ rest i.
          subst (Pending (read_on s.stopping e)) (sym (subst (λ r. Pending r rest) h i))
            (Pending-read_on s.stopping e))
        v)
read_by-AllLanes max d reading (b ∷ p) e s h v =
    let l = lane d s in
    set_lane-AllLanes max d (record (with_got (b ∷ p) l) { reader = filling (b ∷ p) e }) s
      (record {
        sound = (v d).sound;
        in_order = λ f.
            Carries-got (carried l.writer) (b ∷ p) l.got l.sent e l.buffer (
              subst (λ r. Carries (carried l.writer) r l.got l.sent l.buffer) h ((v d).in_order f));
      })
      v
read_by-AllLanes max d (filling q e') p e s h v = v
read_by-AllLanes max d failing p e s h v = v
read_by-AllLanes max d leaving p e s h v = v
read_by-AllLanes max d ended p e s h v = v

-- A lane whose buffer took the first `k` bytes of what its reader held.
filled-IsLane :
    (max k : ℕ) (p : Bytes) (e : Option IoError) (r : Reader) (l : Lane) (rb : RingBuffer)
    → l.reader ≡ filling p e
    → IsSound max rb
    → contents rb ≡ contents l.buffer ++ take k p
    → Pending r (drop k p)
    → IsLane max l
    → IsLane max (record l { buffer = rb; reader = r })
filled-IsLane max k p e r l rb h w a n v = record {
  sound = w;
  in_order = λ f.
      Carries-filled (carried l.writer) p e r l.got l.sent l.buffer rb k a n
        (subst (λ q. Carries (carried l.writer) q l.got l.sent l.buffer) h (v.in_order f));
}

fatal_after-AllLanes :
    (max : ℕ) (st : Status) (d : Direction) (e : Option IoError) (s : PipeSession)
    → AllLanes max s
    → AllLanes max (fatal_after st d e s)
fatal_after-AllLanes max done d e s v = fatal-AllLanes max d e s v
fatal_after-AllLanes max waits d e s v = v
fatal_after-AllLanes max buffer_closed d e s v = v
fatal_after-AllLanes max eof d e s v = v

reader_after-Pending :
    (st : Status) (stopping : Bool) (e : Option IoError) (rb rb' : RingBuffer) (left p : Bytes)
    → left ≡ p
    → Ending st rb left rb'
    → Pending (reader_after st stopping left e) p
reader_after-Pending done stopping e rb rb' left p h k =
    subst (Pending (read_on stopping e)) (sym k ∙ h) (Pending-read_on stopping e)
reader_after-Pending waits stopping e rb rb' left p h k = sym h
reader_after-Pending buffer_closed stopping e rb rb' left p h k = tt
reader_after-Pending eof stopping e rb rb' left p h k = tt

filled-AllLanes :
    (max : ℕ) (d : Direction) (p : Bytes) (out : Written) (e : Option IoError) (s : PipeSession)
    → (lane d s).reader ≡ filling p e
    → Took (lane d s).buffer 0 p out
    → AllLanes max s
    → AllLanes max (filled d out e s)
filled-AllLanes max d p out e s h t v =
    let l = lane d s in
    let r = reader_after out.status s.stopping out.remaining e in
    fatal_after-AllLanes max out.status d e
      (set_lane d (record l { buffer = out.buffer; reader = r }) s)
      (set_lane-AllLanes max d (record l { buffer = out.buffer; reader = r }) s
        (filled-IsLane max t.count p e r l out.buffer h
          (Took-IsSound max l.buffer p out (v d).sound t) t.appended
          (reader_after-Pending out.status s.stopping e l.buffer out.buffer out.remaining
            (drop t.count p) t.left t.ending)
          (v d))
        v)

pub reader_at-AllLanes :
    (max : ℕ) (d : Direction) (fresh : ℕ → Bytes) (r : Reader) (s : PipeSession)
    → ((k : ℕ) → length (fresh k) ≡ buffer_size)
    → (lane d s).reader ≡ r
    → AllLanes max s
    → AllLanes max (reader_at d fresh r s)
reader_at-AllLanes max d fresh reading s f h v = v
reader_at-AllLanes max d fresh (filling p e) s f h v =
    filled-AllLanes max d p (write fresh p (lane d s).buffer) e s h
      (write_lem fresh p (lane d s).buffer (v d).sound.valid f) v
reader_at-AllLanes max d fresh failing s f h v =
    set_reader-AllLanes max d leaving (begin_stop s) (λ rest i. tt) (begin_stop-AllLanes max s v)
reader_at-AllLanes max d fresh leaving s f h v =
    let l = lane d s in
    set_lane-AllLanes max d (record (with_buffer close_write l) { reader = ended }) s
      (record {
        sound = close_write-IsSound max l.buffer (v d).sound;
        in_order = λ g.
            Carries-reader (carried l.writer) l.reader ended l.got l.sent (close_write l.buffer)
              (λ rest i. tt)
              (close_write-Carries (carried l.writer) l.reader l.got l.sent l.buffer
                ((v d).in_order g));
      })
      v
reader_at-AllLanes max d fresh ended s f h v = v
