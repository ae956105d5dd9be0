-- ===== src/Video/Reading.antt =====
-- v4/testing/video/proto.go: what a frame that is read promises.
use relay_x.Prelude.{
  ℕ, Bool, not, if◌then◌else◌, ◌≡◌, refl, sym, ap, ◌∙◌, ◌⊎◌, inl, inr, [], ◌++◌, true, false,
  Bool-cases, arith, leb, length, take, drop, take-append-drop, length-take, get_or, ◌==◌,
}
use relay_x.Prelude.Int.{ℤ}
use relay_x.Errors.{Err, Result, ok, err}
use relay_x.Video.Bytes.{Bytes, get_uint, read_full}
use relay_x.Video.Frames.{
  Frame, magic, version, frame_of, too_large, payload_read, sized, header_read, read_frame,
}

read_full-ok :
    (n : ℕ) (s : Bytes) {p t : Bytes}
    → read_full n s ≡ (ok p, t)
    → (s ≡ p ++ t) × (length p ≡ n) × (p ≡ take n s)
unfolding read_full
read_full-ok n s {p} {t} h = elim (Bool-cases (leb n (length s))) [
  | inl e ↦ (ground (arith, take-append-drop n s), ground (arith, length-take n s), ground arith)
  | inr e ↦ absurd (ground arith)
]

-- What a frame promises of the header, the size in it and the rest of the stream.
abbrev Sound : (Bytes → ℕ) → ℤ → Bytes → ℕ → Bytes → Frame → Bytes → Type 0
Sound crc max hdr n s f rest =
    (s ≡ f.payload ++ rest)
    × (length f.payload ≡ n)
    × (too_large max n ≡ false)
    × ((f.payload ≡ []) ⊎ (crc f.payload ≡ f.crc32))
    × (f ≡ frame_of hdr f.payload)

passed :
    {A : Type 0} (b : Bool) (e : Err) (s : Bytes) (x : Result A × Bytes) {a : A} {t : Bytes}
    → (if b then (err e, s) else x) ≡ (ok a, t)
    → (b ≡ false) × (x ≡ (ok a, t))
passed false e s x h = (refl, h)
passed true e s x h = cc

same_ok :
    {A : Type 0} {a b : A} {s t : Bytes}
    → Path (Result A × Bytes) (ok a, s) (ok b, t)
    → (b ≡ a) × (t ≡ s)
same_ok h = (cc, cc)

equal_numbers : (a b : ℕ) → not (a == b) ≡ false → a ≡ b
equal_numbers a b h = ground arith

payload_read-ok :
    (crc : Bytes → ℕ) (hdr p t : Bytes) {f : Frame} {rest : Bytes}
    → payload_read crc hdr (ok p, t) ≡ (ok f, rest)
    → (f ≡ frame_of hdr p) × (rest ≡ t) × (crc p ≡ get_uint 4 (drop 40 hdr))
payload_read-ok crc hdr p t {f} {rest} h =
    let (e, k) = passed (not (crc p == get_uint 4 (drop 40 hdr))) _ t (ok (frame_of hdr p), t) h in
    let (a, b) = same_ok k in (a, b, equal_numbers (crc p) (get_uint 4 (drop 40 hdr)) e)

payload-Sound :
    (crc : Bytes → ℕ) (max : ℤ) (hdr : Bytes) (n : ℕ) (s : Bytes) (r : Result Bytes × Bytes)
    {f : Frame} {rest : Bytes}
    → too_large max n ≡ false
    → read_full n s ≡ r
    → payload_read crc hdr r ≡ (ok f, rest)
    → Sound crc max hdr n s f rest
payload-Sound crc max hdr n s (err e, t) o k h = absurd (ground arith)
payload-Sound crc max hdr n s (ok p, t) {f} {rest} o k h =
    let (a, b, c) = payload_read-ok crc hdr p t h in
    let (d, l, _) = read_full-ok n s k in
    let same : f.payload ≡ p = ap (λ g. g.payload) a in
    let sum : f.crc32 ≡ get_uint 4 (drop 40 hdr) = ap (λ g. g.crc32) a in
    (rw (same, b) d, rw same l, o, inr (rw (same, sum) c), a ∙ ap (frame_of hdr) (sym same))

empty-Sound :
    (crc : Bytes → ℕ) (max : ℤ) (hdr : Bytes) (n : ℕ) (s : Bytes) {f : Frame} {rest : Bytes}
    → too_large max n ≡ false
    → (n == 0) ≡ true
    → Path (Result Frame × Bytes) (ok (frame_of hdr []), s) (ok f, rest)
    → Sound crc max hdr n s f rest
empty-Sound crc max hdr n s {f} {rest} o e h =
    let (a, b) = same_ok h in
    let same : f.payload ≡ [] = ap (λ g. g.payload) a in
    (rw same (sym b), rw same (ground arith), o, inl same, a ∙ ap (frame_of hdr) (sym same))

sized-Sound :
    (crc : Bytes → ℕ) (max : ℤ) (hdr : Bytes) (n : ℕ) (s : Bytes) {f : Frame} {rest : Bytes}
    → sized crc max hdr n s ≡ (ok f, rest)
    → Sound crc max hdr n s f rest
sized-Sound crc max hdr n s {f} {rest} h =
    let (o, k) =
      passed (too_large max n) _ s
        (if n == 0 then (ok (frame_of hdr []), s) else payload_read crc hdr (read_full n s)) h in
    elim (Bool-cases (n == 0)) [
      | inl e ↦ empty-Sound crc max hdr n s o e (rw e at k)
      | inr e ↦ payload-Sound crc max hdr n s (read_full n s) o refl (rw e at k)
    ]

-- What a frame promises of the whole stream.
abbrev pub Received : (Bytes → ℕ) → ℤ → Bytes → Frame → Bytes → Type 0
Received crc max s f rest =
    (hdr : Bytes) × (s ≡ hdr ++ (f.payload ++ rest))
    × (length hdr ≡ 48)
    × (get_uint 4 hdr ≡ magic)
    × (get_or hdr 4 0 ≡ version)
    × (length f.payload ≡ get_uint 4 (drop 44 hdr))
    × (too_large max (length f.payload) ≡ false)
    × ((f.payload ≡ []) ⊎ (crc f.payload ≡ f.crc32))
    × (f ≡ frame_of hdr f.payload)

header-Received :
    (crc : Bytes → ℕ) (max : ℤ) (s : Bytes) (r : Result Bytes × Bytes) {f : Frame} {rest : Bytes}
    → read_full 48 s ≡ r
    → header_read crc max r ≡ (ok f, rest)
    → Received crc max s f rest
header-Received crc max s (err e, t) k h = absurd (ground arith)
header-Received crc max s (ok hdr, t) k h =
    let n = get_uint 4 (drop 44 hdr) in
    let (m, h1) = passed (not (get_uint 4 hdr == magic)) _ t _ h in
    let (v, h2) = passed (not (get_or hdr 4 0 == version)) _ t (sized crc max hdr n t) h1 in
    let (a, b, c, d, e) = sized-Sound crc max hdr n t h2 in
    let (g, l, _) = read_full-ok 48 s k in
    (
      hdr,
      g ∙ ap (λ u. hdr ++ u) a,
      l,
      equal_numbers (get_uint 4 hdr) magic m,
      equal_numbers (get_or hdr 4 0) version v,
      b,
      rw b c,
      d,
      e,
    )

-- Where a frame is read, the stream was a header of 48 bytes, the frame's payload and what is left.
-- The header starts with the magic number and the version and ends with the payload's size, which
-- the limit allows; the checksum in it is that of the payload, unless that is empty; and the frame's
-- fields are those of the header.
pub read_frame-Received :
    (crc : Bytes → ℕ) (max : ℤ) (s : Bytes) {f : Frame} {rest : Bytes}
    → read_frame crc max s ≡ (ok f, rest)
    → Received crc max s f rest
unfolding read_frame
read_frame-Received crc max s h = header-Received crc max s (read_full 48 s) refl h
