-- ===== src/Buffer/Writing.antt =====
-- v3/relay/buffer.go: `Write` appends to the contents.
use relay_x.Prelude.{
  ℕ, zero, suc, ◌+◌, ◌≤◌, ◌<◌, ◌≡◌, ◌≢◌, refl, sym, ap, ◌∙◌, ◌⊎◌, inl, inr, true, ◌||◌, Bool-cases,
  List, [], ◌∷◌, ◌++◌, length, take, drop, arith, length-append, length-take, length-drop, leb,
  ◌==◌,
}
use mathlib.Core.List.{append_assoc, append-nil}
use relay_x.Buffer.{
  Bytes, RingBuffer, buffer_size, blit, on_last, block_for, with_block, write_block, to_write,
  amount, Status, done, waits, buffer_closed, eof, Written, written, write_loop, write,
}
use relay_x.Buffer.Blocks.{
  drop-nil, drop-drop, contents_of, contents, AllSized, InPlace, IsValid, contents_of-on_last,
  AllSized-on_last, contents_of-fresh, AllSized-fresh,
}

-- There is a last block with room.
abbrev HasRoom : List Bytes → ℕ → ℕ → Type 0
HasRoom [] r w = ⊥
HasRoom (b ∷ []) r w = (r ≤ w) × (w < buffer_size)
HasRoom (b ∷ c ∷ bs) r w = (r < buffer_size) × (w < buffer_size)

-- What `with_block` makes of the blocks.
abbrev Ready : List Bytes → ℕ → ℕ → List Bytes × ℕ → Type 0
Ready bs r w (next, w') =
    AllSized buffer_size next × HasRoom next r w' × (contents_of next r w' ≡ contents_of bs r w)

fresh-HasRoom :
    (b : Bytes) (bs : List Bytes) (fresh : Bytes) (r w : ℕ)
    → InPlace buffer_size (b ∷ bs) r w
    → w ≡ buffer_size
    → HasRoom ((b ∷ bs) ++ fresh ∷ []) r 0
fresh-HasRoom b [] fresh r w h e = omega arith
fresh-HasRoom b (c ∷ bs) fresh r w h e = (h.0, omega arith)

same-HasRoom :
    (b : Bytes) (bs : List Bytes) (r w : ℕ)
    → InPlace buffer_size (b ∷ bs) r w
    → w ≢ buffer_size
    → HasRoom (b ∷ bs) r w
same-HasRoom b [] r w h e = (omega arith, omega arith)
same-HasRoom b (c ∷ bs) r w h e = (h.0, omega arith)

block_for-Ready :
    (fresh : Bytes) (bs : List Bytes) (r w : ℕ)
    → AllSized buffer_size bs
    → InPlace buffer_size bs r w
    → length fresh ≡ buffer_size
    → Ready bs r w (block_for fresh bs w)
block_for-Ready fresh [] r w h k l = ((l, tt), (omega arith, omega arith), drop-nil r)
block_for-Ready fresh (b ∷ bs) r w h k l = elim (Bool-cases (w == buffer_size)) [
  | inl e ↦ rw e (
    AllSized-fresh buffer_size (b ∷ bs) fresh h l,
    fresh-HasRoom b bs fresh r w k (ground arith),
    contents_of-fresh buffer_size b bs fresh r h ∙ ap (contents_of (b ∷ bs) r) (ground arith),
  )
  | inr e ↦ rw e (h, same-HasRoom b bs r w k (ground arith), refl)
]

-- A round writes a byte at least, into the room that there is.
write_block-lists :
    (p : Bytes) (bs : List Bytes) (r w : ℕ)
    → AllSized buffer_size bs
    → HasRoom bs r w
    → 0 < length p
    → w + length p ≤ buffer_size
    → AllSized buffer_size (on_last (blit w p) bs)
      × InPlace buffer_size (on_last (blit w p) bs) r (w + length p)
      × (contents_of (on_last (blit w p) bs) r (w + length p) ≡ contents_of bs r w ++ p)
write_block-lists p [] r w h k n m = absurd k
write_block-lists p (b ∷ []) r w h k n m = (
  AllSized-on_last buffer_size w p m (b ∷ []) h,
  (omega arith, m),
  contents_of-on_last buffer_size w p m b [] r h (λ e. k.0),
)
write_block-lists p (b ∷ c ∷ bs) r w h k n m = (
  AllSized-on_last buffer_size w p m (b ∷ c ∷ bs) h,
  placed bs,
  contents_of-on_last buffer_size w p m b (c ∷ bs) r h (λ e. cc),
)
  where
    placed :
        (cs : List Bytes) → InPlace buffer_size (b ∷ on_last (blit w p) (c ∷ cs)) r (w + length p)
    placed [] = (k.0, omega arith, m)
    placed (d ∷ cs) = (k.0, omega arith, m)

-- What one round of the loop leaves, with the bytes that it took.
record Round (rb : RingBuffer) (p : Bytes) (k : ℕ) (rb' : RingBuffer) : Type 0 where
  valid : IsValid rb'
  appended : contents rb' ≡ contents rb ++ take k p
  some_byte : 0 < k
  within : k ≤ length p
  one_block : k ≤ buffer_size
  grown : rb'.current_size ≡ rb.current_size + k

room-HasRoom : (bs : List Bytes) (r w : ℕ) → HasRoom bs r w → w < buffer_size
room-HasRoom [] r w h = absurd h
room-HasRoom (b ∷ []) r w h = h.1
room-HasRoom (b ∷ c ∷ bs) r w h = h.1

with_block-Ready :
    (fresh : Bytes) (rb : RingBuffer)
    → IsValid rb
    → length fresh ≡ buffer_size
    → AllSized buffer_size (with_block fresh rb).buffers
      × HasRoom (with_block fresh rb).buffers rb.read_off (with_block fresh rb).write_off
      × (contents_of (with_block fresh rb).buffers rb.read_off (with_block fresh rb).write_off
          ≡ contents rb)
unfolding with_block
with_block-Ready fresh rb v l =
    block_for-Ready fresh rb.buffers rb.read_off rb.write_off v.sized v.in_place l

amount_bounds :
    (w n : ℕ)
    → w < buffer_size
    → 0 < n
    → (0 < amount w n) × (amount w n ≤ n) × (w + amount w n ≤ buffer_size)
amount_bounds w n h k = (ground arith, ground arith, ground arith)

round_of :
    (rb rb1 : RingBuffer) (p : Bytes) (k : ℕ)
    → AllSized buffer_size rb1.buffers
    → HasRoom rb1.buffers rb1.read_off rb1.write_off
    → contents rb1 ≡ contents rb
    → rb1.current_size ≡ length (contents rb)
    → rb1.current_size ≡ rb.current_size
    → 0 < k
    → k ≤ length p
    → rb1.write_off + k ≤ buffer_size
    → Round rb p k (write_block (take k p) rb1)
unfolding write_block
round_of rb rb1 p k h m c d e pos le fits =
    let n : length (take k p) ≡ k = omega (arith, length-take k p) in
    let (x, y, z) =
      write_block-lists (take k p) rb1.buffers rb1.read_off rb1.write_off h m (omega arith)
        (omega arith) in
    record {
      valid = record {
        sized = x;
        in_place = y;
        counted = rw z (omega (arith, length-append (contents rb1) (take k p), ap length c));
      };
      appended = z ∙ ap (λ t. t ++ take k p) c;
      some_byte = pos;
      within = le;
      one_block = omega arith;
      grown = omega arith;
    }

round_lem :
    (fresh : Bytes) (p : Bytes) (rb : RingBuffer)
    → IsValid rb
    → length fresh ≡ buffer_size
    → 0 < length p
    → Round rb p
        (to_write (with_block fresh rb) p)
        (write_block (take (to_write (with_block fresh rb) p) p) (with_block fresh rb))
unfolding with_block
round_lem fresh p rb v l pos =
    let (h, m, c) = with_block-Ready fresh rb v l in
    let (x, y, z) =
      amount_bounds (with_block fresh rb).write_off (length p)
        (room-HasRoom (with_block fresh rb).buffers rb.read_off (with_block fresh rb).write_off m)
        pos in
    round_of rb (with_block fresh rb) p (to_write (with_block fresh rb) p) h m c (v.counted) refl x
      y z

take-nil : (n : ℕ) → take {A = ℕ} n [] ≡ []
take-nil zero = refl
take-nil (suc n) = refl

take-take-drop : (k m n : ℕ) (s : Bytes) → n ≡ k + m → take k s ++ take m (drop k s) ≡ take n s
take-take-drop zero m n s e = ap (λ j. take j s) (omega arith)
take-take-drop (suc k) m n [] e = take-nil m ∙ sym (take-nil n)
take-take-drop (suc k) m zero (b ∷ s) e = absurd (omega arith)
take-take-drop (suc k) m (suc n) (b ∷ s) e = ap (λ t. b ∷ t) (take-take-drop k m n s (omega arith))

-- Why the loop ends, from the flags at the start.
abbrev pub Ending : Status → RingBuffer → Bytes → RingBuffer → Type 0
Ending done rb left rb' = left ≡ []
Ending waits rb left rb' = (left ≢ []) × (rb.max_size ≤ rb'.current_size)
Ending buffer_closed rb left rb' = (rb.closed || rb.write_closed) ≡ true
Ending eof rb left rb' = ⊥

-- A call of `Write` has taken the first bytes of `p`, counted from `n` on.
pub record Took (rb : RingBuffer) (n : ℕ) (p : Bytes) (out : Written) : Type 0 where
  pub valid : IsValid out.buffer
  pub count : ℕ
  pub within : count ≤ length p
  pub returned : out.n ≡ n + count
  pub left : out.remaining ≡ drop count p
  pub appended : contents out.buffer ≡ contents rb ++ take count p
  pub bounded :
      (out.buffer.current_size ≡ rb.current_size)
      ⊎ (out.buffer.current_size < rb.max_size + buffer_size)
  pub max_kept : out.buffer.max_size ≡ rb.max_size
  pub closed_kept : out.buffer.closed ≡ rb.closed
  pub write_closed_kept : out.buffer.write_closed ≡ rb.write_closed
  pub ending : Ending out.status rb out.remaining out.buffer

stopped_here :
    (rb : RingBuffer) (n : ℕ) (p : Bytes) (s : Status)
    → IsValid rb
    → Ending s rb p rb
    → Took rb n p (written s n p rb)
stopped_here rb n p s v e = record {
  valid = v;
  count = 0;
  within = omega arith;
  returned = omega arith;
  left = refl;
  appended = sym (append-nil (contents rb));
  bounded = inl refl;
  max_kept = refl;
  closed_kept = refl;
  write_closed_kept = refl;
  ending = e;
}

Ending-same :
    (s : Status) (rb rb' : RingBuffer) (p : Bytes) (out : RingBuffer)
    → rb'.max_size ≡ rb.max_size
    → rb'.closed ≡ rb.closed
    → rb'.write_closed ≡ rb.write_closed
    → Ending s rb' p out
    → Ending s rb p out
Ending-same done rb rb' p out m c w e = e
Ending-same waits rb rb' p out m c w e = (e.0, omega arith)
Ending-same buffer_closed rb rb' p out m c w e = ground arith
Ending-same eof rb rb' p out m c w e = absurd e

-- A round, then the rest of the call.
after_round :
    (rb rb' : RingBuffer) (n k : ℕ) (p : Bytes) (out : Written)
    → Round rb p k rb'
    → rb.current_size < rb.max_size
    → rb'.max_size ≡ rb.max_size
    → rb'.closed ≡ rb.closed
    → rb'.write_closed ≡ rb.write_closed
    → Took rb' (n + k) (drop k p) out
    → Took rb n p out
after_round rb rb' n k p out r l m c w t = record {
  valid = t.valid;
  count = k + t.count;
  within = omega (arith, length-drop k p, r.within, t.within);
  returned = omega (arith, t.returned);
  left = t.left ∙ drop-drop k t.count (k + t.count) p refl;
  appended =
      t.appended
      ∙ ap (λ u. u ++ take t.count (drop k p)) r.appended
      ∙ append_assoc (contents rb) (take k p) (take t.count (drop k p))
      ∙ ap (λ u. contents rb ++ u) (take-take-drop k t.count (k + t.count) p refl);
  bounded = ground (arith, t.bounded, r.grown, r.one_block);
  max_kept = t.max_kept ∙ m;
  closed_kept = t.closed_kept ∙ c;
  write_closed_kept = t.write_closed_kept ∙ w;
  ending = Ending-same out.status rb rb' out.remaining out.buffer m c w t.ending;
}

write_loop_lem :
    (fuel : ℕ) (fresh : ℕ → Bytes) (n : ℕ) (p : Bytes) (rb : RingBuffer)
    → IsValid rb
    → ((k : ℕ) → length (fresh k) ≡ buffer_size)
    → length p ≤ fuel
    → Took rb n p (write_loop fuel fresh n p rb)
unfolding write_loop
write_loop_lem fuel fresh n [] rb v h l = stopped_here rb n [] done v refl
write_loop_lem zero fresh n (b ∷ s) rb v h l = absurd (omega arith)
write_loop_lem (suc fuel) fresh n (b ∷ s) rb v h l =
    elim (Bool-cases (rb.closed || rb.write_closed)) [
      | inl c ↦ rw c (stopped_here rb n (b ∷ s) buffer_closed v c)
      | inr c ↦ rw c (elim (Bool-cases (leb rb.max_size rb.current_size)) [
        | inl w ↦ rw w (stopped_here rb n (b ∷ s) waits v (λ e. cc, ground arith))
        | inr w ↦ rw w (
            let rb1 = with_block (fresh n) rb in
            let k = to_write rb1 (b ∷ s) in
            let r = round_lem (fresh n) (b ∷ s) rb v (h n) (omega arith) in
            after_round rb (write_block (take k (b ∷ s)) rb1) n k (b ∷ s) _ r (ground arith) refl
              refl refl
              (write_loop_lem fuel fresh (n + k) (drop k (b ∷ s)) (write_block (take k (b ∷ s)) rb1)
                r.valid h (omega (arith, length-drop k (b ∷ s), r.some_byte))))
      ])
    ]

-- Of a valid buffer, `Write` takes some first bytes of `p`, appends exactly these to the contents, and
-- says how many. It stops because all are taken, because the buffer is closed, or to wait, where bytes
-- remain and the buffer is full. It lets the buffer grow past its maximum by less than one block.
pub write_lem :
    (fresh : ℕ → Bytes) (p : Bytes) (rb : RingBuffer)
    → IsValid rb
    → ((k : ℕ) → length (fresh k) ≡ buffer_size)
    → Took rb 0 p (write fresh p rb)
unfolding write
write_lem fresh p rb v h = write_loop_lem (length p) fresh 0 p rb v h (omega arith)
