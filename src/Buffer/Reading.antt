-- ===== src/Buffer/Reading.antt =====
-- v3/relay/buffer.go: `Read` takes from the front of the contents.
use relay_x.Prelude.{
  ℕ, ◌+◌, ◌≤◌, ◌<◌, ◌≡◌, ◌≢◌, refl, sym, ap, ◌∙◌, inl, inr, Bool, true, false, Bool-cases, Option,
  none, some, List, [], ◌∷◌, ◌++◌, length, take, drop, arith, length-append, length-take,
  length-drop, take-append-drop, ltb, ◌==◌, if◌then◌else◌,
}
use mathlib.Core.List.{append_assoc}
use relay_x.Buffer.{
  Bytes, RingBuffer, buffer_size, block_done, available, to_read, read_first, read, Status, done,
  waits, buffer_closed, eof,
}
use relay_x.Buffer.Blocks.{
  take_all, contents_of, contents, AllSized, InPlace, IsValid, window_split, drop_all, drop-drop,
}

-- What `block_done` leaves, after the bytes `out` were read.
abbrev Left : Bytes → List Bytes → ℕ → ℕ → Bytes → List Bytes × ℕ × ℕ → Type 0
Left b bs r w out (next, r', w') =
    AllSized buffer_size next
    × InPlace buffer_size next r' w'
    × (out ++ contents_of next r' w' ≡ contents_of (b ∷ bs) r w)

next_placed :
    (c : Bytes) (bs : List Bytes) (w : ℕ)
    → 0 < w
    → w ≤ buffer_size
    → InPlace buffer_size (c ∷ bs) 0 w
next_placed c [] w h k = (h, k)
next_placed c (d ∷ bs) w h k = (omega arith, h, k)

part : (r n : ℕ) (b : Bytes) → take n (drop r b) ++ drop (r + n) b ≡ drop r b
part r n b = rw (← drop-drop r n (r + n) b refl) (take-append-drop n (drop r b))

block_done-Left :
    (b : Bytes) (bs : List Bytes) (r w n : ℕ)
    → AllSized buffer_size (b ∷ bs)
    → InPlace buffer_size (b ∷ bs) r w
    → n ≤ available bs r w
    → Left b bs r w (take n (drop r b)) (block_done b bs (r + n) w)
block_done-Left b [] r w n h k l = elim (Bool-cases (r + n == w)) [
  | inl e ↦ rw e (
    tt,
    (refl, refl),
    ap (λ t. take n (drop r b) ++ t) (sym (drop_all w (take w b) (omega (arith, length-take w b))))
        ∙ window_split r n w w b (ground arith) (ground arith),
  )
  | inr e ↦ rw e (h, (ground arith, k.1), window_split r n w (r + n) b (omega arith) refl)
]
block_done-Left b (c ∷ bs) r w n h k l = elim (Bool-cases (r + n == buffer_size)) [
  | inl e ↦ rw e (
    h.1,
    next_placed c bs w k.1 k.2,
    ap (λ t. t ++ contents_of (c ∷ bs) 0 w)
        (take_all n (drop r b) (ground (arith, length-drop r b))),
  )
  | inr e ↦ rw e (
    h,
    (ground arith, k.1, k.2),
    sym (append_assoc (take n (drop r b)) (drop (r + n) b) (contents_of (c ∷ bs) 0 w))
        ∙ ap (λ t. t ++ contents_of (c ∷ bs) 0 w) (part r n b),
  )
]

-- A read that succeeds: the bytes come off the front of the contents, at most `k` of them, and one at
-- least where there is room for one.
pub record Gave (k : ℕ) (rb : RingBuffer) (out : Bytes) (rb' : RingBuffer) : Type 0 where
  pub valid : IsValid rb'
  pub taken : contents rb ≡ out ++ contents rb'
  pub most : length out ≤ k
  pub some_byte : 0 < k → 0 < length out
  pub max_kept : rb'.max_size ≡ rb.max_size
  pub closed_kept : rb'.closed ≡ rb.closed
  pub write_closed_kept : rb'.write_closed ≡ rb.write_closed

-- The outcomes of `Read`.
abbrev pub Reads : ℕ → RingBuffer → Option (Status × Bytes × RingBuffer) → Type 0
Reads k rb none = ⊥
Reads k rb (some (done, out, rb')) = (contents rb ≢ []) × Gave k rb out rb'
Reads k rb (some (waits, out, rb')) =
    (contents rb ≡ []) × (rb.closed ≡ false) × (rb.write_closed ≡ false) × (out ≡ []) × (rb' ≡ rb)
Reads k rb (some (buffer_closed, out, rb')) =
    (contents rb ≡ []) × (rb.closed ≡ true) × (out ≡ []) × (rb' ≡ rb)
Reads k rb (some (eof, out, rb')) =
    (contents rb ≡ []) × (rb.closed ≡ false) × (rb.write_closed ≡ true) × (out ≡ []) × (rb' ≡ rb)

empty_of : (s : Bytes) → length s ≡ 0 → s ≡ []
empty_of [] h = refl
empty_of (b ∷ s) h = absurd (omega arith)

not_empty : (s : Bytes) → 0 < length s → s ≢ []
not_empty [] h e = absurd (omega arith)
not_empty (b ∷ s) h e = cc

-- `available` is positive, and does not reach past the block.
available_bounds :
    (b : Bytes) (bs : List Bytes) (r w : ℕ)
    → AllSized buffer_size (b ∷ bs)
    → InPlace buffer_size (b ∷ bs) r w
    → (0 < available bs r w) × (r + available bs r w ≤ length b)
available_bounds b [] r w h k = (omega arith, omega arith)
available_bounds b (c ∷ bs) r w h k = (omega arith, omega arith)

read_first-Gave :
    (k : ℕ) (bs : List Bytes) (rb : RingBuffer)
    → AllSized buffer_size bs
    → InPlace buffer_size bs rb.read_off rb.write_off
    → contents_of bs rb.read_off rb.write_off ≡ contents rb
    → rb.current_size ≡ length (contents rb)
    → 0 < rb.current_size
    → Reads k rb (read_first k bs rb)
read_first-Gave k [] rb h m e c p = absurd (omega (arith, ap length e))
read_first-Gave k (b ∷ bs) rb h m e c p =
    let (x, y) = available_bounds b bs rb.read_off rb.write_off h m in
    let n = to_read (available bs rb.read_off rb.write_off) k in
    let next = block_done b bs (rb.read_off + n) rb.write_off in
    let (s, i, t) = block_done-Left b bs rb.read_off rb.write_off n h m (ground arith) in
    let l : length (take n (drop rb.read_off b)) ≡ n =
      ground (arith, length-take n (drop rb.read_off b), length-drop rb.read_off b) in
    (
      not_empty (contents rb) (omega arith),
      record {
        valid = record {
          sized = s;
          in_place = i;
          counted = omega (
            arith,
            ap length e,
            ap length t,
            length-append (take n (drop rb.read_off b)) (contents_of next.0 next.1 next.2),
          );
        };
        taken = sym e ∙ sym t;
        most = ground arith;
        some_byte = λ j. ground arith;
        max_kept = refl;
        closed_kept = refl;
        write_closed_kept = refl;
      },
    )

nothing_left :
    (k : ℕ) (rb : RingBuffer) (c w : Bool)
    → contents rb ≡ []
    → rb.closed ≡ c
    → rb.write_closed ≡ w
    → Reads k rb (
        if c
        then some (buffer_closed, [], rb)
        else if w
        then some (eof, [], rb)
        else some (waits, [], rb))
nothing_left k rb true w h e f = (h, e, refl, refl)
nothing_left k rb false true h e f = (h, e, f, refl, refl)
nothing_left k rb false false h e f = (h, e, f, refl, refl)

-- Of a valid buffer, `Read` never panics. Where there are contents it gives bytes from their front and
-- keeps the rest, at least one byte if it may give any; where there are none it reports a closed
-- buffer, then the end of the input, and else waits, and changes nothing.
pub read_lem : (k : ℕ) (rb : RingBuffer) → IsValid rb → Reads k rb (read k rb)
unfolding read
read_lem k rb v = elim (Bool-cases (ltb 0 rb.current_size)) [
  | inl e ↦ rw e (read_first-Gave k rb.buffers rb v.sized v.in_place refl v.counted (ground arith))
  | inr e ↦
      let none_left : contents rb ≡ [] = empty_of (contents rb) (ground (arith, v.counted)) in
      rw e (nothing_left k rb rb.closed rb.write_closed none_left refl refl)
]
