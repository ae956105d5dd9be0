-- ===== src/Buffer/Blocks.antt =====
-- v3/relay/buffer.go: the bytes that a list of blocks holds between the two offsets.
use relay_x.Prelude.{
  ℕ, zero, suc, ◌+◌, ◌≤◌, ◌<◌, ◌≡◌, refl, sym, ap, ◌∙◌, List, [], ◌∷◌, ◌++◌, length, take, drop,
  arith, length-append, length-take, length-drop, take-append-drop,
}
use mathlib.Core.List.{append_assoc, append-nil}
use relay_x.Buffer.{Bytes, RingBuffer, buffer_size, blit, on_last}

pub take_all : (k : ℕ) (s : Bytes) → length s ≤ k → take k s ≡ s
take_all zero [] h = refl
take_all zero (b ∷ s) h = absurd (omega arith)
take_all (suc k) [] h = refl
take_all (suc k) (b ∷ s) h = ap (λ t. b ∷ t) (take_all k s (omega arith))

pub take-append : (k : ℕ) (s t : Bytes) → k ≡ length s → take k (s ++ t) ≡ s
take-append zero [] t h = refl
take-append zero (b ∷ s) t h = absurd (omega arith)
take-append (suc k) [] t h = absurd (omega arith)
take-append (suc k) (b ∷ s) t h = ap (λ u. b ∷ u) (take-append k s t (omega arith))

drop-append : (k : ℕ) (s t : Bytes) → k ≤ length s → drop k (s ++ t) ≡ drop k s ++ t
drop-append zero s t h = refl
drop-append (suc k) [] t h = absurd (omega arith)
drop-append (suc k) (b ∷ s) t h = drop-append k s t (omega arith)

pub drop_all : (k : ℕ) (s : Bytes) → length s ≤ k → drop k s ≡ []
drop_all zero [] h = refl
drop_all zero (b ∷ s) h = absurd (omega arith)
drop_all (suc k) [] h = refl
drop_all (suc k) (b ∷ s) h = drop_all k s (omega arith)

pub drop-nil : (n : ℕ) → drop {A = ℕ} n [] ≡ []
drop-nil zero = refl
drop-nil (suc n) = refl

pub drop-drop : (r n m : ℕ) (s : Bytes) → m ≡ r + n → drop n (drop r s) ≡ drop m s
drop-drop zero n m s e = ap (λ k. drop k s) (omega arith)
drop-drop (suc r) n zero s e = absurd (omega arith)
drop-drop (suc r) n (suc m) [] e = drop-nil n
drop-drop (suc r) n (suc m) (b ∷ s) e = drop-drop r n m s (omega arith)

take-take : (n w : ℕ) (s : Bytes) → n ≤ w → take n (take w s) ≡ take n s
take-take zero w s h = refl
take-take (suc n) zero s h = absurd (omega arith)
take-take (suc n) (suc w) [] h = refl
take-take (suc n) (suc w) (b ∷ s) h = ap (λ t. b ∷ t) (take-take n w s (omega arith))

take-drop-take :
    (r n w : ℕ) (s : Bytes) → r + n ≤ w → take n (drop r (take w s)) ≡ take n (drop r s)
take-drop-take zero n w s h = take-take n w s (omega arith)
take-drop-take (suc r) n zero s h = absurd (omega arith)
take-drop-take (suc r) n (suc w) [] h = refl
take-drop-take (suc r) n (suc w) (b ∷ s) h = take-drop-take r n w s (omega arith)

-- A window of a block is its first bytes and the rest.
pub window_split :
    (r n w m : ℕ) (b : Bytes)
    → r + n ≤ w
    → m ≡ r + n
    → take n (drop r b) ++ drop m (take w b) ≡ drop r (take w b)
window_split r n w m b h e =
    rw (← take-drop-take r n w b h, ← drop-drop r n m (take w b) e)
      (take-append-drop n (drop r (take w b)))

abbrev pub contents_of : List Bytes → ℕ → ℕ → Bytes
contents_of [] r w = []
contents_of (b ∷ []) r w = drop r (take w b)
contents_of (b ∷ c ∷ bs) r w = drop r b ++ contents_of (c ∷ bs) 0 w

abbrev pub contents : RingBuffer → Bytes
contents rb = contents_of rb.buffers rb.read_off rb.write_off

abbrev pub AllSized : ℕ → List Bytes → Type 0
AllSized size [] = Unit {0}
AllSized size (b ∷ bs) = (length b ≡ size) × AllSized size bs

-- The first block has bytes left to read, and the last has been written to.
abbrev pub InPlace : ℕ → List Bytes → ℕ → ℕ → Type 0
InPlace size [] r w = (r ≡ 0) × (w ≡ 0)
InPlace size (b ∷ []) r w = (r < w) × (w ≤ size)
InPlace size (b ∷ c ∷ bs) r w = (r < size) × (0 < w) × (w ≤ size)

pub record IsValid (rb : RingBuffer) : Type 0 where
  pub sized : AllSized buffer_size rb.buffers
  pub in_place : InPlace buffer_size rb.buffers rb.read_off rb.write_off
  pub counted : rb.current_size ≡ length (contents rb)

module _ (size w : ℕ) (p : Bytes) (room : w + length p ≤ size) where
  length-blit : (b : Bytes) → length b ≡ size → length (blit w p b) ≡ size
  length-blit b h = omega (
    arith,
    length-append (take w b) (p ++ drop (w + length p) b),
    length-append p (drop (w + length p) b),
    length-take w b,
    length-drop (w + length p) b,
  )

  take-blit : (b : Bytes) → length b ≡ size → take (w + length p) (blit w p b) ≡ take w b ++ p
  take-blit b h = rw (← append_assoc (take w b) p (drop (w + length p) b)) (
      take-append (w + length p) (take w b ++ p) (drop (w + length p) b)
        (omega (arith, length-append (take w b) p, length-take w b)))

  -- A write into the last block appends to the contents.
  pub contents_of-on_last :
      (b : Bytes) (bs : List Bytes) (r : ℕ)
      → AllSized size (b ∷ bs)
      → (bs ≡ [] → r ≤ w)
      → contents_of (on_last (blit w p) (b ∷ bs)) r (w + length p) ≡ contents_of (b ∷ bs) r w ++ p
  contents_of-on_last b [] r h k =
      rw (take-blit b h.0) (drop-append r (take w b) p (omega (arith, length-take w b, k refl)))
  contents_of-on_last b (c ∷ []) r h k =
      ap (λ t. drop r b ++ t) (contents_of-on_last c [] 0 h.1 (λ e. omega arith))
      ∙ sym (append_assoc (drop r b) (contents_of (c ∷ []) 0 w) p)
  contents_of-on_last b (c ∷ d ∷ bs) r h k =
      ap (λ t. drop r b ++ t) (contents_of-on_last c (d ∷ bs) 0 h.1 (λ e. cc))
      ∙ sym (append_assoc (drop r b) (contents_of (c ∷ d ∷ bs) 0 w) p)

  pub AllSized-on_last :
      (bs : List Bytes) → AllSized size bs → AllSized size (on_last (blit w p) bs)
  AllSized-on_last [] h = tt
  AllSized-on_last (b ∷ []) h = (length-blit b h.0, tt)
  AllSized-on_last (b ∷ c ∷ bs) h = (h.0, AllSized-on_last (c ∷ bs) h.1)

-- A fresh block behind a full one changes nothing.
pub contents_of-fresh :
    (size : ℕ) (b : Bytes) (bs : List Bytes) (fresh : Bytes) (r : ℕ)
    → AllSized size (b ∷ bs)
    → contents_of ((b ∷ bs) ++ fresh ∷ []) r 0 ≡ contents_of (b ∷ bs) r size
contents_of-fresh size b [] fresh r h =
    append-nil (drop r b) ∙ ap (drop r) (sym (take_all size b (omega arith)))
contents_of-fresh size b (c ∷ bs) fresh r h =
    ap (λ t. drop r b ++ t) (contents_of-fresh size c bs fresh 0 h.1)

pub AllSized-fresh :
    (size : ℕ) (bs : List Bytes) (fresh : Bytes)
    → AllSized size bs
    → length fresh ≡ size
    → AllSized size (bs ++ fresh ∷ [])
AllSized-fresh size [] fresh h k = (k, tt)
AllSized-fresh size (b ∷ bs) fresh h k = (h.0, AllSized-fresh size bs fresh h.1 k)
