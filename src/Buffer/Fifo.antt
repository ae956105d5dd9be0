-- ===== src/Buffer/Fifo.antt =====
-- v3/relay/buffer.go: any sequence of calls, by writers and readers, is first in, first out.
use relay_x.Prelude.{
  ℕ, ◌+◌, ◌<◌, ◌≡◌, refl, sym, ap, ◌∙◌, Bool, true, false, Option, none, some, List, [], ◌∷◌, ◌++◌,
  length, length-append, take, arith, if◌then◌else◌,
}
use mathlib.Core.List.{append_assoc, append-nil}
use native.Mathlib.Nat.{zero-add}
use relay_x.Buffer.{
  Bytes, RingBuffer, new_ring_buffer, buffer_size, Status, done, waits, buffer_closed, eof, write,
  read, flush, close, cleanup, close_write,
}
use relay_x.Buffer.Blocks.{contents, IsValid}
use relay_x.Buffer.Writing.{write_lem}
use relay_x.Buffer.Reading.{Reads, read_lem}

-- A call of a method; a call of `Write` or `Read` that went on after waiting is a call of its own.
pub data Call : Type 0 where
  writing : (ℕ → Bytes) → Bytes → Call
  reading : ℕ → Call
  flushing : Call
  closing : Call
  closing_write : Call

-- The buffer, the bytes that writers were told to be written, and those that left: that readers got
-- or that were thrown away.
pub record History : Type 0 where
  pub buffer : RingBuffer
  pub accepted : Bytes
  pub left : Bytes

abbrev after_read : Option (Status × Bytes × RingBuffer) → History → Option History
after_read none h = none
after_read (some (s, out, rb)) h = some (record h { buffer = rb; left = h.left ++ out })

-- `none` is a panic.
unfoldable pub call : Call → History → Option History
call (writing fresh p) h =
    let out = write fresh p h.buffer in
    some (record h { buffer = out.buffer; accepted = h.accepted ++ take out.n p })
call (reading k) h = after_read (read k h.buffer) h
call flushing h = some (record h { buffer = flush h.buffer; left = h.left ++ contents h.buffer })
call closing h = some (record h {
  buffer = close h.buffer;
  left = if h.buffer.closed then h.left else h.left ++ contents h.buffer;
})
call closing_write h = some (record h { buffer = close_write h.buffer })

abbrev then_calls : (History → Option History) → Option History → Option History
then_calls next none = none
then_calls next (some h) = next h

unfoldable pub calls : List Call → History → Option History
unfolding call
calls [] h = some h
calls (c ∷ cs) h = then_calls (calls cs) (call c h)

-- The blocks of the pool have the size of blocks.
abbrev pub Fresh : Call → Type 0
Fresh (writing fresh p) = (k : ℕ) → length (fresh k) ≡ buffer_size
Fresh _ = Unit {0}

abbrev pub AllFresh : List Call → Type 0
AllFresh [] = Unit {0}
AllFresh (c ∷ cs) = Fresh c × AllFresh cs

pub record IsFifo (max : ℕ) (h : History) : Type 0 where
  pub valid : IsValid h.buffer
  pub in_order : h.accepted ≡ h.left ++ contents h.buffer
  pub max_kept : h.buffer.max_size ≡ max
  pub bounded : h.buffer.current_size < max + buffer_size

-- A call returns, and leaves a first-in-first-out history.
abbrev Returns : ℕ → Option History → Type 0
Returns max none = ⊥
Returns max (some h) = IsFifo max h

writing-Returns :
    (max : ℕ) (fresh : ℕ → Bytes) (p : Bytes) (h : History)
    → ((k : ℕ) → length (fresh k) ≡ buffer_size)
    → IsFifo max h
    → Returns max (call (writing fresh p) h)
unfolding call
writing-Returns max fresh p h f v =
    let t = write_lem fresh p h.buffer v.valid f in
    let out = write fresh p h.buffer in
    record {
      valid = t.valid;
      in_order =
          ap (λ k. h.accepted ++ take k p) (t.returned ∙ zero-add t.count)
          ∙ ap (λ s. s ++ take t.count p) v.in_order
          ∙ append_assoc h.left (contents h.buffer) (take t.count p)
          ∙ ap (λ s. h.left ++ s) (sym t.appended);
      max_kept = t.max_kept ∙ v.max_kept;
      bounded = ground (arith, t.bounded, v.bounded, v.max_kept);
    }

unchanged :
    (max : ℕ) (h : History) (out : Bytes) (rb : RingBuffer)
    → IsFifo max h
    → out ≡ []
    → rb ≡ h.buffer
    → IsFifo max (record h { buffer = rb; left = h.left ++ out })
unchanged max h out rb v e f =
    rw (e, f)
      (record {
        valid = v.valid;
        in_order = v.in_order ∙ ap (λ s. s ++ contents h.buffer) (sym (append-nil h.left));
        max_kept = v.max_kept;
        bounded = v.bounded;
      })

read-Returns :
    (max k : ℕ) (h : History) (o : Option (Status × Bytes × RingBuffer))
    → IsFifo max h
    → Reads k h.buffer o
    → Returns max (after_read o h)
read-Returns max k h none v r = absurd r
read-Returns max k h (some (done, out, rb)) v (_, g) = record {
  valid = g.valid;
  in_order =
      v.in_order ∙ ap (λ s. h.left ++ s) g.taken ∙ sym (append_assoc h.left out (contents rb));
  max_kept = g.max_kept ∙ v.max_kept;
  bounded =
      omega (
        arith,
        g.valid.counted,
        v.valid.counted,
        ap length g.taken,
        length-append out (contents rb),
      );
}
read-Returns max k h (some (waits, out, rb)) v (_, _, _, e, f) = unchanged max h out rb v e f
read-Returns max k h (some (buffer_closed, out, rb)) v (_, _, e, f) = unchanged max h out rb v e f
read-Returns max k h (some (eof, out, rb)) v (_, _, _, e, f) = unchanged max h out rb v e f

cleaned :
    (max : ℕ) (h : History) (rb : RingBuffer)
    → IsFifo max h
    → rb.max_size ≡ h.buffer.max_size
    → IsFifo max (record h { buffer = cleanup rb; left = h.left ++ contents h.buffer })
unfolding cleanup
cleaned max h rb v e = record {
  valid = record { sized = tt; in_place = (refl, refl); counted = refl };
  in_order = v.in_order ∙ sym (append-nil (h.left ++ contents h.buffer));
  max_kept = e ∙ v.max_kept;
  bounded = omega (arith, v.bounded);
}

close-IsFifo :
    (max : ℕ) (h : History) (b : Bool)
    → IsFifo max h
    → IsFifo max (record h {
      buffer = if b then h.buffer else cleanup (record h.buffer { closed = true });
      left = if b then h.left else h.left ++ contents h.buffer;
    })
close-IsFifo max h true v = v
close-IsFifo max h false v = cleaned max h (record h.buffer { closed = true }) v refl

call-Returns : (max : ℕ) (c : Call) (h : History) → Fresh c → IsFifo max h → Returns max (call c h)
unfolding call flush close close_write
call-Returns max (writing fresh p) h f v = writing-Returns max fresh p h f v
call-Returns max (reading k) h f v =
    read-Returns max k h (read k h.buffer) v (read_lem k h.buffer v.valid)
call-Returns max flushing h f v = cleaned max h h.buffer v refl
call-Returns max closing h f v = close-IsFifo max h h.buffer.closed v
call-Returns max closing_write h f v = record {
  valid = record { sized = v.valid.sized; in_place = v.valid.in_place; counted = v.valid.counted };
  in_order = v.in_order;
  max_kept = v.max_kept;
  bounded = v.bounded;
}

then_calls-Returns :
    (max : ℕ) (next : History → Option History) (o : Option History)
    → ((h : History) → IsFifo max h → Returns max (next h))
    → Returns max o
    → Returns max (then_calls next o)
then_calls-Returns max next none n r = absurd r
then_calls-Returns max next (some h) n r = n h r

calls-Returns :
    (max : ℕ) (cs : List Call) (h : History) → AllFresh cs → IsFifo max h → Returns max (calls cs h)
unfolding calls
calls-Returns max [] h f v = v
calls-Returns max (c ∷ cs) h f v =
    then_calls-Returns max (calls cs) (call c h) (λ h1 w. calls-Returns max cs h1 f.1 w)
      (call-Returns max c h f.0 v)

IsFifo-some :
    (max : ℕ) (o : Option History) → Returns max o → (h : History) × (o ≡ some h) × IsFifo max h
IsFifo-some max none r = absurd r
IsFifo-some max (some h) r = (h, refl, r)

abbrev pub new_history : ℕ → History
new_history max = record { buffer = new_ring_buffer max; accepted = []; left = [] }

-- Any calls of writers and readers, flushes and closes in any order, on a new buffer, each return or
-- come to wait, and none panics. At the end the bytes that `Write` said were written are, in their order, those that
-- readers got or a flush or the close threw away, then those in the buffer, and the buffer holds less
-- than its maximum and a block.
pub calls-new_ring_buffer :
    (max : ℕ) (cs : List Call)
    → AllFresh cs
    → (h : History) × (calls cs (new_history max) ≡ some h) × IsFifo max h
unfolding new_ring_buffer
calls-new_ring_buffer max cs f =
    IsFifo-some max (calls cs (new_history max)) (calls-Returns max cs (new_history max) f start)
  where
    start : IsFifo max (new_history max)
    start = record {
      valid = record { sized = tt; in_place = (refl, refl); counted = refl };
      in_order = refl;
      max_kept = refl;
      bounded = omega arith;
    }
