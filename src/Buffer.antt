-- ===== src/Buffer.antt =====
-- v3/relay/buffer.go (v2/relay/buffer.go is the same): the ring buffer between the two halves of a
-- pipe. Each method holds the mutex; where it waits on the condition it gives the mutex up, so a call
-- ends there as `waits` and goes on later by another call. The blocks are those of
-- v1/common/memory.go; what a block from the pool holds at first is an argument.
pub mod Blocks
pub mod Writing
pub mod Reading
pub mod Fifo
mod Tests
use relay_x.Prelude.{
  ℕ, zero, suc, ◌+◌, ◌-◌, ◌*◌, Bool, true, false, ◌||◌, ◌&&◌, List, [], ◌∷◌, ◌++◌, length, take,
  drop, ltb, leb, ◌==◌, if◌then◌else◌, Option, none, some,
}

abbrev pub Bytes : Type 0
Bytes = List ℕ

-- `common.BufferSize`
abbrev pub buffer_size : ℕ
buffer_size = 32 * 1024

pub record RingBuffer : Type 0 where
  pub buffers : List Bytes
  pub write_off : ℕ
  pub read_off : ℕ
  pub current_size : ℕ
  pub max_size : ℕ
  pub closed : Bool
  pub write_closed : Bool

unfoldable pub new_ring_buffer : ℕ → RingBuffer
new_ring_buffer max = record {
  buffers = [];
  write_off = 0;
  read_off = 0;
  current_size = 0;
  max_size = max;
  closed = false;
  write_closed = false;
}

-- `copy(b[off:], p)`, for a `p` that fits.
abbrev pub blit : ℕ → Bytes → Bytes → Bytes
blit off p b = take off b ++ (p ++ drop (off + length p) b)

abbrev pub on_last : (Bytes → Bytes) → List Bytes → List Bytes
on_last f [] = []
on_last f (b ∷ []) = f b ∷ []
on_last f (b ∷ c ∷ bs) = b ∷ on_last f (c ∷ bs)

-- `currentBuf == nil || rb.writeOff == cap(currentBuf)`: another block is appended. The blocks and the
-- offset to write at.
abbrev pub block_for : Bytes → List Bytes → ℕ → List Bytes × ℕ
block_for fresh [] w = (fresh ∷ [], 0)
block_for fresh (b ∷ bs) w = if w == buffer_size then ((b ∷ bs) ++ fresh ∷ [], 0) else (b ∷ bs, w)

unfoldable pub with_block : Bytes → RingBuffer → RingBuffer
with_block fresh rb =
    let next = block_for fresh rb.buffers rb.write_off in
    record rb { buffers = next.0; write_off = next.1 }

-- The bytes that one round of the loop of `Write` copies, of `n`.
abbrev pub amount : ℕ → ℕ → ℕ
amount w n = if ltb (buffer_size - w) n then buffer_size - w else n

abbrev pub to_write : RingBuffer → Bytes → ℕ
to_write rb p = amount rb.write_off (length p)

unfoldable pub write_block : Bytes → RingBuffer → RingBuffer
write_block p rb = record rb {
  buffers = on_last (blit rb.write_off p) rb.buffers;
  write_off = rb.write_off + length p;
  current_size = rb.current_size + length p;
}

pub data Status : Type 0 where
  done waits buffer_closed eof : Status

-- What `Write` has written when it returns or waits, and what remains.
pub record Written : Type 0 where
  pub status : Status
  pub n : ℕ
  pub remaining : Bytes
  pub buffer : RingBuffer

abbrev pub written : Status → ℕ → Bytes → RingBuffer → Written
written s n p rb = record { status = s; n = n; remaining = p; buffer = rb }

-- The loop of `Write`, with fuel for its rounds; `fresh k` is the block that the pool gives after `k`
-- bytes.
unfoldable pub write_loop : ℕ → (ℕ → Bytes) → ℕ → Bytes → RingBuffer → Written
unfolding with_block write_block
write_loop fuel fresh n [] rb = written done n [] rb
write_loop zero fresh n (b ∷ s) rb = written done n (b ∷ s) rb
write_loop (suc fuel) fresh n (b ∷ s) rb =
    let rb1 = with_block (fresh n) rb in
    let k = to_write rb1 (b ∷ s) in
    let rest = write_loop fuel fresh (n + k) (drop k (b ∷ s)) (write_block (take k (b ∷ s)) rb1) in
    if rb.closed || rb.write_closed
    then written buffer_closed n (b ∷ s) rb
    else if leb rb.max_size rb.current_size
    then written waits n (b ∷ s) rb
    else rest

-- Each round writes a byte at least.
unfoldable pub write : (ℕ → Bytes) → Bytes → RingBuffer → Written
unfolding write_loop
write fresh p rb = write_loop (length p) fresh 0 p rb

-- `cleanup`
unfoldable pub cleanup : RingBuffer → RingBuffer
cleanup rb = record rb { buffers = []; current_size = 0; read_off = 0; write_off = 0 }

unfoldable pub flush : RingBuffer → RingBuffer
unfolding cleanup
flush rb = cleanup rb

unfoldable pub close : RingBuffer → RingBuffer
unfolding cleanup
close rb = if rb.closed then rb else cleanup (record rb { closed = true })

unfoldable pub close_write : RingBuffer → RingBuffer
close_write rb = record rb { write_closed = true }

-- The end of `Read`: an emptied first block is given back. The blocks and the two offsets.
abbrev pub block_done : Bytes → List Bytes → ℕ → ℕ → List Bytes × ℕ × ℕ
block_done b [] r w = if r == w then ([], 0, 0) else (b ∷ [], r, w)
block_done b (c ∷ bs) r w = if r == buffer_size then (c ∷ bs, 0, w) else (b ∷ c ∷ bs, r, w)

abbrev pub available : List Bytes → ℕ → ℕ → ℕ
available [] r w = w - r
available (c ∷ bs) r w = buffer_size - r

abbrev pub to_read : ℕ → ℕ → ℕ
to_read avail k = if ltb avail k then avail else k

-- `Read` into `k` bytes, from the first block. Without a block the read of `buffers[0]` panics, which
-- is `none`.
abbrev pub read_first : ℕ → List Bytes → RingBuffer → Option (Status × Bytes × RingBuffer)
read_first k [] rb = none
read_first k (b ∷ bs) rb =
    let n = to_read (available bs rb.read_off rb.write_off) k in
    let next = block_done b bs (rb.read_off + n) rb.write_off in
    some (
      done,
      take n (drop rb.read_off b),
      record rb {
        buffers = next.0;
        read_off = next.1;
        write_off = next.2;
        current_size = rb.current_size - n;
      },
    )

unfoldable pub read : ℕ → RingBuffer → Option (Status × Bytes × RingBuffer)
read k rb =
    if ltb 0 rb.current_size
    then read_first k rb.buffers rb
    else if rb.closed
    then some (buffer_closed, [], rb)
    else if rb.write_closed
    then some (eof, [], rb)
    else some (waits, [], rb)
