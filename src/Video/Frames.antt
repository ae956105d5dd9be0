-- ===== src/Video/Frames.antt =====
-- v4/testing/video/proto.go: writing and reading frames. A stream is the bytes up to its end; a
-- writer takes the bytes of one call of `Write` and its own state. `crc` is `crc32.ChecksumIEEE`.
use relay_x.Prelude.{
  ℕ, ◌-◌, ◌^◌, Bool, ◌&&◌, ◌||◌, not, [], ◌∷◌, ◌++◌, codes, decimal, ltb, ◌==◌, length, drop,
  get_or, if◌then◌else◌,
}
use relay_x.Prelude.Int.{ℤ, pos, ltb_ℤ}
use relay_x.Errors.{Err, nil, plain, Result, ok, err}
use relay_x.Video.Bytes.{Bytes, put_uint, get_uint, to_uint64, to_int64, read_full}

abbrev pub magic : ℕ
magic = 1446270548

abbrev pub version : ℕ
version = 1

abbrev pub msg_data : ℕ
msg_data = 1

abbrev pub msg_echo : ℕ
msg_echo = 2

abbrev pub msg_ping : ℕ
msg_ping = 3

abbrev pub msg_pong : ℕ
msg_pong = 4

pub record Frame : Type 0 where
  pub typ : ℕ
  pub seq : ℕ
  pub sent : ℤ
  pub server_recv : ℤ
  pub server_send : ℤ
  pub crc32 : ℕ
  pub payload : Bytes

-- The 48 bytes of a header; two are not used.
abbrev pub header : ℕ → ℕ → ℤ → ℤ → ℤ → ℕ → ℕ → Bytes
header typ seq sent recv send crc n =
    put_uint 4 magic
    ++ (version ∷ typ ∷ 0 ∷ 0 ∷ put_uint 8 seq)
    ++ put_uint 8 (to_uint64 sent)
    ++ put_uint 8 (to_uint64 recv)
    ++ put_uint 8 (to_uint64 send)
    ++ put_uint 4 crc
    ++ put_uint 4 n

abbrev pub header_size : ℕ
header_size = 48

abbrev pub max_uint32 : ℕ
max_uint32 = 2 ^ 32 - 1

-- The payload follows the header if there is one and the header was written.
abbrev pub then_payload {ℓ} : {W : Type ℓ} → (Bytes → W → W × Err) → Bytes → W × Err → W × Err
then_payload write [] (w, nil) = (w, nil)
then_payload write (b ∷ s) (w, nil) = write (b ∷ s) w
then_payload write payload (w, e) = (w, e)

module _ {ℓ} {W : Type ℓ} (crc : Bytes → ℕ) (write : Bytes → W → W × Err) where
  unfoldable pub write_data_frame : ℕ → ℤ → Bytes → W → W × Err
  write_data_frame seq sent payload w =
      if ltb max_uint32 (length payload)
      then (w, plain (codes "payload too large: " ++ decimal (length payload)))
      else then_payload write payload
          (write (header msg_data seq sent (pos 0) (pos 0) (crc payload) (length payload)) w)

  unfoldable pub write_echo_frame : ℕ → ℤ → ℤ → ℤ → Bytes → W → W × Err
  write_echo_frame seq sent recv send payload w =
      if ltb max_uint32 (length payload)
      then (w, plain (codes "payload too large: " ++ decimal (length payload)))
      else then_payload write payload
          (write (header msg_echo seq sent recv send (crc payload) (length payload)) w)

module _ {ℓ} {W : Type ℓ} (write : Bytes → W → W × Err) where
  unfoldable pub write_ping_frame : ℕ → ℤ → W → W × Err
  write_ping_frame seq sent w = write (header msg_ping seq sent (pos 0) (pos 0) 0 0) w

  unfoldable pub write_pong_frame : ℕ → ℤ → ℤ → ℤ → W → W × Err
  write_pong_frame seq sent recv send w = write (header msg_pong seq sent recv send 0 0) w

-- The frame of a header and a payload.
abbrev pub frame_of : Bytes → Bytes → Frame
frame_of hdr payload = record {
  typ = get_or hdr 5 0;
  seq = get_uint 8 (drop 8 hdr);
  sent = to_int64 (get_uint 8 (drop 16 hdr));
  server_recv = to_int64 (get_uint 8 (drop 24 hdr));
  server_send = to_int64 (get_uint 8 (drop 32 hdr));
  crc32 = get_uint 4 (drop 40 hdr);
  payload = payload;
}

abbrev pub too_large : ℤ → ℕ → Bool
too_large max n = ltb_ℤ (pos n) (pos 0) || (ltb_ℤ (pos 0) max && ltb_ℤ max (pos n))

-- The payload as it was read, with what is left of the stream.
abbrev pub payload_read : (Bytes → ℕ) → Bytes → Result Bytes × Bytes → Result Frame × Bytes
payload_read crc hdr (err e, s) = (err e, s)
payload_read crc hdr (ok payload, s) =
    if not (crc payload == get_uint 4 (drop 40 hdr))
    then (err (plain (codes "crc mismatch")), s)
    else (ok (frame_of hdr payload), s)

-- What follows the checks of the magic number and the version, with the size of the header.
abbrev pub sized : (Bytes → ℕ) → ℤ → Bytes → ℕ → Bytes → Result Frame × Bytes
sized crc max hdr n s =
    if too_large max n
    then (err (plain (codes "payload too large: " ++ decimal n)), s)
    else if n == 0
    then (ok (frame_of hdr []), s)
    else payload_read crc hdr (read_full n s)

abbrev pub header_read : (Bytes → ℕ) → ℤ → Result Bytes × Bytes → Result Frame × Bytes
header_read crc max (err e, s) = (err e, s)
header_read crc max (ok hdr, s) =
    if not (get_uint 4 hdr == magic)
    then (err (plain (codes "invalid magic")), s)
    else if not (get_or hdr 4 0 == version)
    then (err (plain (codes "unsupported version: " ++ decimal (get_or hdr 4 0))), s)
    else sized crc max hdr (get_uint 4 (drop 44 hdr)) s

-- `ReadFrame`, with what it leaves of the stream.
unfoldable pub read_frame : (Bytes → ℕ) → ℤ → Bytes → Result Frame × Bytes
unfolding read_full
read_frame crc max s = header_read crc max (read_full header_size s)
