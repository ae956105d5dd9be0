-- ===== src/Video/Trip.antt =====
-- v4/testing/video/proto.go: a frame that was written reads back.
use relay_x.Prelude.{
  ℕ, suc, sym, true, ◌==◌, ◌⊎◌, inl, inr, ◌^◌, ◌<◌, ◌≡◌, refl, ◌∙◌, false, [], ◌∷◌, ◌++◌, arith,
  length, drop, ap,
}
use relay_x.Prelude.Int.{ℤ}
use relay_x.Errors.{Err, nil, ok}
use relay_x.Video.Bytes.{
  Bytes, put_uint, get_uint, to_uint64, to_int64, InInt64, get_uint32, get_uint64, to_uint64_small,
  to_int64-to_uint64, read_full-append,
}
use relay_x.Video.Frames.{
  Frame, header, frame_of, too_large, header_read, sized, payload_read, read_frame,
}

-- A writer that keeps all bytes.
abbrev pub append_to : Bytes → Bytes → Bytes × Err
append_to p log = (log ++ p, nil)

-- The fields of a frame are in the ranges of their types, and `max` allows for its payload.
pub record Fits (max : ℤ) (f : Frame) : Type 0 where
  pub seq : f.seq < 2 ^ 64
  pub sent : InInt64 f.sent
  pub server_recv : InInt64 f.server_recv
  pub server_send : InInt64 f.server_send
  pub crc32 : f.crc32 < 2 ^ 32
  pub payload : length f.payload < 2 ^ 32
  pub allowed : too_large max (length f.payload) ≡ false

abbrev header_for : Frame → Bytes
header_for f = header f.typ f.seq f.sent f.server_recv f.server_send f.crc32 (length f.payload)

-- The bytes of a frame.
abbrev pub encoded : Frame → Bytes
encoded f = header_for f ++ f.payload

int64_read : (x : ℤ) → InInt64 x → to_int64 (get_uint 8 (put_uint 8 (to_uint64 x))) ≡ x
int64_read x h = rw (get_uint64 (to_uint64 x) (to_uint64_small x)) (to_int64-to_uint64 x h)

frame_of-header_for : (max : ℤ) (f : Frame) → Fits max f → frame_of (header_for f) f.payload ≡ f
frame_of-header_for max f h =
    ap6 (get_uint64 f.seq h.seq) (int64_read f.sent h.sent) (int64_read f.server_recv h.server_recv)
      (int64_read f.server_send h.server_send) (get_uint32 f.crc32 h.crc32)
  where
    ap6 :
        {q : ℕ} {a b c : ℤ} {k : ℕ}
        → q ≡ f.seq
        → a ≡ f.sent
        → b ≡ f.server_recv
        → c ≡ f.server_send
        → k ≡ f.crc32
        → record {
          typ = f.typ;
          seq = q;
          sent = a;
          server_recv = b;
          server_send = c;
          crc32 = k;
          payload = f.payload;
        }
          ≡ f
    ap6 e1 e2 e3 e4 e5 = cc

same_number : (a b : ℕ) → a ≡ b → (a == b) ≡ true
same_number a b e = ground arith

not_zero : (m : ℕ) → (suc m == 0) ≡ false
not_zero m = ground arith

payload_read_lem :
    (crc : Bytes → ℕ) (hdr t s : Bytes)
    → crc t ≡ get_uint 4 (drop 40 hdr)
    → payload_read crc hdr (ok t, s) ≡ (ok (frame_of hdr t), s)
payload_read_lem crc hdr t s e = rw (same_number (crc t) (get_uint 4 (drop 40 hdr)) e) refl

sized_lem :
    (crc : Bytes → ℕ) (max : ℤ) (f : Frame) (rest hdr : Bytes) (n : ℕ) (t : Bytes)
    → n ≡ length t
    → get_uint 4 (drop 40 hdr) ≡ f.crc32
    → frame_of hdr t ≡ f
    → too_large max (length t) ≡ false
    → (t ≡ []) ⊎ (crc t ≡ f.crc32)
    → sized crc max hdr n (t ++ rest) ≡ (ok f, rest)
sized_lem crc max f rest hdr n [] e c o a k = rw e (rw a (rw o refl))
sized_lem crc max f rest hdr n (b ∷ t) e c o a (inl k) = cc
sized_lem crc max f rest hdr n (b ∷ t) e c o a (inr k) = rw e (
    rw (a, not_zero (length t))
      (rw (read_full-append (b ∷ t) rest)
        (payload_read_lem crc hdr (b ∷ t) rest (k ∙ sym c) ∙ ap (λ g. (ok g, rest)) o)))

header_read-header_for :
    (crc : Bytes → ℕ) (max : ℤ) (f : Frame) (rest : Bytes)
    → Fits max f
    → (f.payload ≡ []) ⊎ (crc f.payload ≡ f.crc32)
    → header_read crc max (ok (header_for f), f.payload ++ rest) ≡ (ok f, rest)
header_read-header_for crc max f rest h k =
    sized_lem crc max f rest (header_for f) (get_uint 4 (drop 44 (header_for f))) f.payload
      (get_uint32 (length f.payload) h.payload) (get_uint32 f.crc32 h.crc32)
      (frame_of-header_for max f h) h.allowed k

pub read_frame-encoded :
    (crc : Bytes → ℕ) (max : ℤ) (f : Frame) (rest : Bytes)
    → Fits max f
    → (f.payload ≡ []) ⊎ (crc f.payload ≡ f.crc32)
    → read_frame crc max (encoded f ++ rest) ≡ (ok f, rest)
unfolding read_frame
read_frame-encoded crc max f rest h k =
    ap (header_read crc max) (read_full-append (header_for f) (f.payload ++ rest))
    ∙ header_read-header_for crc max f rest h k
