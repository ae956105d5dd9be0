-- ===== src/Pipes/Lanes.antt =====
-- v3/relay/pipe.go: the bytes that each direction carries.
use relay_x.Prelude.{
  ℕ, ◌+◌, ◌<◌, ◌≡◌, refl, sym, ap, ◌∙◌, false, Option, none, some, [], ◌++◌, take, drop,
  take-append-drop,
}
use mathlib.Core.List.{append_assoc, append-nil}
use relay_x.Buffer.{Bytes, RingBuffer, buffer_size}
use relay_x.Buffer.Blocks.{contents, IsValid}
use relay_x.Pipes.{
  IoError, Direction, fe_to_be, be_to_fe, Reader, reading, filling, failing, leaving, ended, Writer,
  receiving, sending, Lane, PipeSession, lane, set_lane,
}

pub record IsSound (max : ℕ) (rb : RingBuffer) : Type 0 where
  pub valid : IsValid rb
  pub max_kept : rb.max_size ≡ max
  pub bounded : rb.current_size < max + buffer_size

-- What the reader still has to write.
abbrev pub Pending : Reader → Bytes → Type 0
Pending reading rest = rest ≡ []
Pending (filling p e) rest = rest ≡ p
Pending _ rest = Unit {0}

-- What the writer has taken from the buffer, as long as it goes on.
abbrev pub carried : Writer → Option Bytes
carried receiving = some []
carried (sending p) = some p
carried failing = none
carried leaving = none
carried ended = none

-- What the source sent is what the destination took, then what the writer, the buffer and the reader
-- hold; or, once the writer has given up, then anything.
abbrev pub Carries : Option Bytes → Reader → Bytes → Bytes → RingBuffer → Type 0
Carries (some q) r got sent rb =
    (rest : Bytes) × Pending r rest × (got ≡ sent ++ (q ++ (contents rb ++ rest)))
Carries none r got sent rb = (missing : Bytes) × (got ≡ sent ++ missing)

pub record IsLane (max : ℕ) (l : Lane) : Type 0 where
  pub sound : IsSound max l.buffer
  pub in_order : l.flushed ≡ false → Carries (carried l.writer) l.reader l.got l.sent l.buffer

abbrev pub AllLanes : ℕ → PipeSession → Type 0
AllLanes max s = (d : Direction) → IsLane max (lane d s)

pub set_lane-AllLanes :
    (max : ℕ) (d : Direction) (l : Lane) (s : PipeSession)
    → IsLane max l
    → AllLanes max s
    → AllLanes max (set_lane d l s)
set_lane-AllLanes max fe_to_be l s k v fe_to_be = k
set_lane-AllLanes max fe_to_be l s k v be_to_fe = v be_to_fe
set_lane-AllLanes max be_to_fe l s k v fe_to_be = v fe_to_be
set_lane-AllLanes max be_to_fe l s k v be_to_fe = k

-- A reader that holds as much, or whose holdings do not count.
pub Carries-reader :
    (o : Option Bytes) (r r' : Reader) (got sent : Bytes) (rb : RingBuffer)
    → ((rest : Bytes) → Pending r rest → Pending r' rest)
    → Carries o r got sent rb
    → Carries o r' got sent rb
Carries-reader none r r' got sent rb f c = c
Carries-reader (some q) r r' got sent rb f (rest, p, e) = (rest, f rest p, e)

-- A writer that gives up.
pub Carries-none :
    (o : Option Bytes) (r : Reader) (got sent : Bytes) (rb : RingBuffer)
    → Carries o r got sent rb
    → Carries none r got sent rb
Carries-none none r got sent rb c = c
Carries-none (some q) r got sent rb (rest, p, e) = (q ++ (contents rb ++ rest), e)

pub Carries-got :
    (o : Option Bytes) (p got sent : Bytes) (e : Option IoError) (rb : RingBuffer)
    → Carries o reading got sent rb
    → Carries o (filling p e) (got ++ p) sent rb
Carries-got none p got sent e rb (m, h) = (m ++ p, ap (λ t. t ++ p) h ∙ append_assoc sent m p)
Carries-got (some q) p got sent e rb (rest, n, h) = (
  p,
  refl,
  ap (λ t. t ++ p) h
      ∙ append_assoc sent (q ++ (contents rb ++ rest)) p
      ∙ ap (λ t. sent ++ t)
          (append_assoc q (contents rb ++ rest) p
            ∙ ap (λ t. q ++ t)
                (ap (λ t. (contents rb ++ t) ++ p) n
                  ∙ ap (λ t. t ++ p) (append-nil (contents rb)))),
)

pub Carries-filled :
    (o : Option Bytes) (p : Bytes) (e : Option IoError) (r' : Reader) (got sent : Bytes)
    (rb rb' : RingBuffer) (k : ℕ)
    → contents rb' ≡ contents rb ++ take k p
    → Pending r' (drop k p)
    → Carries o (filling p e) got sent rb
    → Carries o r' got sent rb'
Carries-filled none p e r' got sent rb rb' k a n c = c
Carries-filled (some q) p e r' got sent rb rb' k a n (rest, i, h) = (
  drop k p,
  n,
  h
      ∙ ap (λ t. sent ++ (q ++ t))
          (ap (λ t. contents rb ++ t) (i ∙ sym (take-append-drop k p))
            ∙ sym (append_assoc (contents rb) (take k p) (drop k p))
            ∙ ap (λ t. t ++ drop k p) (sym a)),
)

pub Carries-received :
    (r : Reader) (p got sent : Bytes) (rb rb' : RingBuffer)
    → contents rb ≡ p ++ contents rb'
    → Carries (some []) r got sent rb
    → Carries (some p) r got sent rb'
Carries-received r p got sent rb rb' t (rest, i, h) = (
  rest,
  i,
  h ∙ ap (λ c. sent ++ (c ++ rest)) t ∙ ap (λ c. sent ++ c) (append_assoc p (contents rb') rest),
)

pub Carries-sent :
    (r : Reader) (p got sent : Bytes) (rb : RingBuffer)
    → Carries (some p) r got sent rb
    → Carries (some []) r got (sent ++ p) rb
Carries-sent r p got sent rb (rest, i, h) =
    (rest, i, h ∙ sym (append_assoc sent p (contents rb ++ rest)))

pub Carries-failed :
    (r : Reader) (p got sent : Bytes) (k : ℕ) (rb : RingBuffer)
    → Carries (some p) r got sent rb
    → Carries none r got (sent ++ take k p) rb
Carries-failed r p got sent k rb (rest, i, h) = (
  drop k p ++ (contents rb ++ rest),
  h
      ∙ ap (λ c. sent ++ (c ++ (contents rb ++ rest))) (sym (take-append-drop k p))
      ∙ ap (λ c. sent ++ c) (append_assoc (take k p) (drop k p) (contents rb ++ rest))
      ∙ sym (append_assoc sent (take k p) (drop k p ++ (contents rb ++ rest))),
)
