-- ===== src/Buffer/Tests.antt =====
-- A buffer of at most one byte: a write of three bytes fits a block, another waits until a read.
use relay_x.Prelude.{ℕ, zero, suc, ap, ◌≡◌, refl, List, [], ◌∷◌, length, replicate, some}
use relay_x.Buffer.{Bytes, buffer_size}
use relay_x.Buffer.Fifo.{
  Call, writing, reading, closing_write, History, calls, AllFresh, IsFifo, new_history,
  calls-new_ring_buffer,
}

length-replicate : (n a : ℕ) → length (replicate n a) ≡ n
length-replicate zero a = refl
length-replicate (suc n) a = ap suc (length-replicate n a)

zeros : ℕ → Bytes
zeros k = replicate buffer_size 0

zeros_size : (k : ℕ) → length (zeros k) ≡ buffer_size
unfolding zeros
zeros_size k = length-replicate buffer_size 0

abbrev script : List Call
script =
    writing zeros (1 ∷ 2 ∷ 3 ∷ [])
    ∷ writing zeros (4 ∷ [])
    ∷ reading 2
    ∷ closing_write
    ∷ reading 2
    ∷ []

script-AllFresh : AllFresh script
script-AllFresh = (zeros_size, (zeros_size, (tt, (tt, (tt, tt)))))

calls-new_ring_buffer_example : (h : History) × (calls script (new_history 1) ≡ some h) × IsFifo 1 h
calls-new_ring_buffer_example = calls-new_ring_buffer 1 script script-AllFresh
