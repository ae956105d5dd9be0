-- ===== src/Pipes/Carrying.antt =====
-- v3/relay/pipe.go: what a session delivers, whatever steps it takes.
use relay_x.Prelude.{ℕ, ◌≡◌, refl, true, Option, none, some, List, [], ◌∷◌, length, arith}
use relay_x.Buffer.{RingBuffer, new_ring_buffer, buffer_size, flush, close, close_write}
use relay_x.Pipes.{
  fe_to_be, be_to_fe, Lane, PipeSession, new_pipe_session, new_lane, stop_next, lane, with_buffer,
  StopAct, closing_fe, closing_be, flushing, closing_write, closing, stop_act, stop_step,
}
use relay_x.Pipes.Steps.{
  read_src, reader_step, writer_step, write_dst, Step, source_read, reader_goes, writer_goes,
  destination_written, stop_called, stop_goes, step, steps, then_steps,
}
use relay_x.Pipes.Lanes.{IsSound, carried, IsLane, AllLanes, set_lane-AllLanes}
use relay_x.Pipes.Delivery.{
  cleanup-IsSound, close-IsSound, close_write-IsSound, begin_stop-AllLanes, read_by-AllLanes,
  reader_at-AllLanes, close_write-Carries, GoesOn,
}
use relay_x.Pipes.Writers.{writer_at-AllLanes, sent_by-AllLanes}

flushed-IsLane :
    (max : ℕ) (l : Lane) (rb : RingBuffer)
    → IsSound max rb
    → IsLane max (record l { buffer = rb; flushed = true })
flushed-IsLane max l rb v = record { sound = v; in_order = λ f. cc }

stop_act-AllLanes :
    (max : ℕ) (a : StopAct) (s : PipeSession) → AllLanes max s → AllLanes max (stop_act a s)
unfolding flush
stop_act-AllLanes max closing_fe s v = elim [ fe_to_be ↦ v fe_to_be | be_to_fe ↦ v be_to_fe ]
stop_act-AllLanes max closing_be s v = elim [ fe_to_be ↦ v fe_to_be | be_to_fe ↦ v be_to_fe ]
stop_act-AllLanes max (flushing d) s v =
    let l = lane d s in
    set_lane-AllLanes max d (record l { buffer = flush l.buffer; flushed = true }) s
      (flushed-IsLane max l (flush l.buffer) (cleanup-IsSound max l.buffer (v d).sound.max_kept)) v
stop_act-AllLanes max (closing_write d) s v =
    let l = lane d s in
    set_lane-AllLanes max d (with_buffer close_write l) s
      (record {
        sound = close_write-IsSound max l.buffer (v d).sound;
        in_order = λ f.
            close_write-Carries (carried l.writer) l.reader l.got l.sent l.buffer
              ((v d).in_order f);
      })
      v
stop_act-AllLanes max (closing d) s v =
    let l = lane d s in
    set_lane-AllLanes max d (record (with_buffer close l) { flushed = true }) s
      (flushed-IsLane max l (close l.buffer) (close-IsSound max l.buffer (v d).sound)) v

stop_next-AllLanes :
    (max : ℕ) (l : List StopAct) (s : PipeSession) → AllLanes max s → AllLanes max (stop_next l s)
stop_next-AllLanes max [] s v = v
stop_next-AllLanes max (a ∷ rest) s v =
    stop_act-AllLanes max a (record s { to_do = rest })
      (elim [ fe_to_be ↦ v fe_to_be | be_to_fe ↦ v be_to_fe ])

-- The blocks of the pool have the size of blocks.
abbrev pub IsFresh : Step → Type 0
IsFresh (reader_goes d fresh) = (k : ℕ) → length (fresh k) ≡ buffer_size
IsFresh _ = Unit {0}

abbrev pub AllFresh : List Step → Type 0
AllFresh [] = Unit {0}
AllFresh (x ∷ xs) = IsFresh x × AllFresh xs

step-AllLanes :
    (max : ℕ) (x : Step) (s : PipeSession) → IsFresh x → AllLanes max s → GoesOn max (step x s)
unfolding step read_src reader_step writer_step write_dst stop_step
step-AllLanes max (source_read d p e) s f v = read_by-AllLanes max d (lane d s).reader p e s refl v
step-AllLanes max (reader_goes d fresh) s f v =
    reader_at-AllLanes max d fresh (lane d s).reader s f refl v
step-AllLanes max (writer_goes d) s f v = writer_at-AllLanes max d (lane d s).writer s refl v
step-AllLanes max (destination_written d k e) s f v =
    sent_by-AllLanes max d (lane d s).writer k e s refl v
step-AllLanes max stop_called s f v = begin_stop-AllLanes max s v
step-AllLanes max stop_goes s f v = stop_next-AllLanes max s.to_do s v

then_steps-AllLanes :
    (max : ℕ) (next : PipeSession → Option PipeSession) (o : Option PipeSession)
    → ((s : PipeSession) → AllLanes max s → GoesOn max (next s))
    → GoesOn max o
    → GoesOn max (then_steps next o)
then_steps-AllLanes max next none n v = absurd v
then_steps-AllLanes max next (some s) n v = n s v

steps-AllLanes :
    (max : ℕ) (xs : List Step) (s : PipeSession)
    → AllFresh xs
    → AllLanes max s
    → GoesOn max (steps xs s)
unfolding steps
steps-AllLanes max [] s f v = v
steps-AllLanes max (x ∷ xs) s (f, fs) v =
    then_steps-AllLanes max (steps xs) (step x s) (λ t w. steps-AllLanes max xs t fs w)
      (step-AllLanes max x s f v)

GoesOn-some :
    (max : ℕ) (o : Option PipeSession)
    → GoesOn max o
    → (s : PipeSession) × (o ≡ some s) × AllLanes max s
GoesOn-some max none v = absurd v
GoesOn-some max (some s) v = (s, refl, v)

-- Whatever steps a new session, its connections and `Stop` take, in any order, none panics, and in each
-- direction the buffer holds less than its maximum and a block. As long as `Stop` has not thrown its
-- contents away, the bytes that came from the source are, in their order, those that the destination
-- took, then those that the writer, the buffer and the reader hold; where the writer has given up, the
-- destination took a first part of them.
pub steps-new_pipe_session :
    (max : ℕ) (xs : List Step)
    → AllFresh xs
    → (s : PipeSession) × (steps xs (new_pipe_session max) ≡ some s) × AllLanes max s
unfolding new_pipe_session new_ring_buffer
steps-new_pipe_session max xs f =
    GoesOn-some max (steps xs (new_pipe_session max)) (
      steps-AllLanes max xs (new_pipe_session max) f (elim [ fe_to_be ↦ start | be_to_fe ↦ start ]))
  where
    start : IsLane max (new_lane max)
    start = record {
      sound = record {
        valid = record { sized = tt; in_place = (refl, refl); counted = refl };
        max_kept = refl;
        bounded = omega arith;
      };
      in_order = λ f. ([], refl, refl);
    }
