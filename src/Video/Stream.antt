-- ===== src/Video/Stream.antt =====
-- v4/testing/video/proto.go: a stream of frames, by any of the four writers, reads back.
use relay_x.Prelude.{
  ℕ, zero, suc, ◌^◌, ◌<◌, ◌≡◌, refl, sym, ap, ◌∙◌, ◌⊎◌, inl, inr, List, [], ◌∷◌, ◌++◌, false, ltb,
  arith, length, map, if◌then◌else◌,
}
use mathlib.Core.List.{append_assoc, append-nil}
use relay_x.Prelude.Int.{ℤ, pos}
use relay_x.Errors.{Err, nil, Result, ok, err}
use relay_x.Video.Bytes.{Bytes}
use relay_x.Video.Frames.{
  Frame, msg_data, msg_echo, msg_ping, msg_pong, header, then_payload, max_uint32, write_data_frame,
  write_echo_frame, write_ping_frame, write_pong_frame, read_frame,
}
use relay_x.Video.Trip.{append_to, Fits, encoded, read_frame-encoded}

-- A call of one of the writers.
pub data Message : Type 0 where
  data_message : ℕ → ℤ → Bytes → Message
  echo_message : ℕ → ℤ → ℤ → ℤ → Bytes → Message
  ping_message : ℕ → ℤ → Message
  pong_message : ℕ → ℤ → ℤ → ℤ → Message

abbrev pub payload_of : Message → Bytes
payload_of (data_message seq sent payload) = payload
payload_of (echo_message seq sent recv send payload) = payload
payload_of (ping_message seq sent) = []
payload_of (pong_message seq sent recv send) = []

-- The frame that the other side is to see.
abbrev pub frame_for : (Bytes → ℕ) → Message → Frame
frame_for crc (data_message seq sent payload) = record {
  typ = msg_data;
  seq = seq;
  sent = sent;
  server_recv = pos 0;
  server_send = pos 0;
  crc32 = crc payload;
  payload = payload;
}
frame_for crc (echo_message seq sent recv send payload) = record {
  typ = msg_echo;
  seq = seq;
  sent = sent;
  server_recv = recv;
  server_send = send;
  crc32 = crc payload;
  payload = payload;
}
frame_for crc (ping_message seq sent) = record {
  typ = msg_ping;
  seq = seq;
  sent = sent;
  server_recv = pos 0;
  server_send = pos 0;
  crc32 = 0;
  payload = [];
}
frame_for crc (pong_message seq sent recv send) = record {
  typ = msg_pong;
  seq = seq;
  sent = sent;
  server_recv = recv;
  server_send = send;
  crc32 = 0;
  payload = [];
}

unfoldable pub write_message : (Bytes → ℕ) → Message → Bytes → Bytes × Err
unfolding write_data_frame write_echo_frame write_ping_frame write_pong_frame
write_message crc (data_message seq sent payload) = write_data_frame crc append_to seq sent payload
write_message crc (echo_message seq sent recv send payload) =
    write_echo_frame crc append_to seq sent recv send payload
write_message crc (ping_message seq sent) = write_ping_frame append_to seq sent
write_message crc (pong_message seq sent recv send) = write_pong_frame append_to seq sent recv send

-- Until the first error.
abbrev and_then : (Bytes → Bytes × Err) → Bytes × Err → Bytes × Err
and_then next (log, nil) = next log
and_then next (log, e) = (log, e)

unfoldable pub write_messages : (Bytes → ℕ) → List Message → Bytes → Bytes × Err
unfolding write_message
write_messages crc [] log = (log, nil)
write_messages crc (m ∷ ms) log = and_then (write_messages crc ms) (write_message crc m log)

abbrev add_frame : Frame → Result (List Frame) × Bytes → Result (List Frame) × Bytes
add_frame f (err e, s) = (err e, s)
add_frame f (ok fs, s) = (ok (f ∷ fs), s)

abbrev frame_and_rest :
    (Bytes → Result (List Frame) × Bytes) → Result Frame × Bytes → Result (List Frame) × Bytes
frame_and_rest next (err e, s) = (err e, s)
frame_and_rest next (ok f, s) = add_frame f (next s)

-- Reads the given number of frames.
unfoldable pub read_frames : (Bytes → ℕ) → ℤ → ℕ → Bytes → Result (List Frame) × Bytes
unfolding read_frame
read_frames crc max zero s = (ok [], s)
read_frames crc max (suc n) s = frame_and_rest (read_frames crc max n) (read_frame crc max s)

abbrev pub AllFit : (Bytes → ℕ) → ℤ → List Message → Type 0
AllFit crc max [] = Unit {0}
AllFit crc max (m ∷ ms) = Fits max (frame_for crc m) × AllFit crc max ms

then_payload-append :
    (h payload log : Bytes)
    → then_payload append_to payload (append_to h log) ≡ ((log ++ h) ++ payload, nil)
then_payload-append h [] log = ap (λ w. (w, nil)) (sym (append-nil (log ++ h)))
then_payload-append h (b ∷ s) log = refl

small_enough : (n : ℕ) → n < 2 ^ 32 → ltb max_uint32 n ≡ false
small_enough n h = ground arith

-- A header and a payload that is not too large.
both_written :
    (h payload log : Bytes) (e : Err)
    → length payload < 2 ^ 32
    → (if ltb max_uint32 (length payload)
        then (log, e)
        else then_payload append_to payload (append_to h log))
      ≡ (log ++ (h ++ payload), nil)
both_written h payload log e l =
    rw (small_enough (length payload) l)
      (then_payload-append h payload log ∙ ap (λ w. (w, nil)) (append_assoc log h payload))

write_message_lem :
    (crc : Bytes → ℕ) (max : ℤ) (m : Message) (log : Bytes)
    → Fits max (frame_for crc m)
    → write_message crc m log ≡ (log ++ encoded (frame_for crc m), nil)
unfolding write_message
write_message_lem crc max (data_message seq sent payload) log h =
    both_written (header msg_data seq sent (pos 0) (pos 0) (crc payload) (length payload)) payload
      log _ h.payload
write_message_lem crc max (echo_message seq sent recv send payload) log h =
    both_written (header msg_echo seq sent recv send (crc payload) (length payload)) payload log _
      h.payload
write_message_lem crc max (ping_message seq sent) log h = refl
write_message_lem crc max (pong_message seq sent recv send) log h = refl

checked_crc :
    (crc : Bytes → ℕ) (m : Message)
    → ((frame_for crc m).payload ≡ []) ⊎ (crc (frame_for crc m).payload ≡ (frame_for crc m).crc32)
checked_crc crc (data_message seq sent payload) = inr refl
checked_crc crc (echo_message seq sent recv send payload) = inr refl
checked_crc crc (ping_message seq sent) = inl refl
checked_crc crc (pong_message seq sent recv send) = inl refl

abbrev all_encoded : (Bytes → ℕ) → List Message → Bytes
all_encoded crc [] = []
all_encoded crc (m ∷ ms) = encoded (frame_for crc m) ++ all_encoded crc ms

write_messages_lem :
    (crc : Bytes → ℕ) (max : ℤ) (ms : List Message) (log : Bytes)
    → AllFit crc max ms
    → write_messages crc ms log ≡ (log ++ all_encoded crc ms, nil)
unfolding write_messages
write_messages_lem crc max [] log h = ap (λ w. (w, nil)) (sym (append-nil log))
write_messages_lem crc max (m ∷ ms) log h = rw (write_message_lem crc max m log h.0) (
    write_messages_lem crc max ms (log ++ encoded (frame_for crc m)) h.1
    ∙ ap (λ w. (w, nil)) (append_assoc log (encoded (frame_for crc m)) (all_encoded crc ms)))

read_frames-encoded :
    (crc : Bytes → ℕ) (max : ℤ) (ms : List Message) (rest : Bytes)
    → AllFit crc max ms
    → read_frames crc max (length ms) (all_encoded crc ms ++ rest)
      ≡ (ok (map (frame_for crc) ms), rest)
unfolding read_frames
read_frames-encoded crc max [] rest h = refl
read_frames-encoded crc max (m ∷ ms) rest h =
    ap (frame_and_rest (read_frames crc max (length ms))) (
      ap (read_frame crc max) (append_assoc (encoded (frame_for crc m)) (all_encoded crc ms) rest)
      ∙ read_frame-encoded crc max (frame_for crc m) (all_encoded crc ms ++ rest) h.0
          (checked_crc crc m))
    ∙ ap (add_frame (frame_for crc m)) (read_frames-encoded crc max ms rest h.1)

-- Messages whose fields are in the ranges of their types and whose payloads the reader allows are
-- written without an error, by any mix of the four writers. Reading as many frames as there are
-- messages from those bytes and any others gives the messages' frames in their order, each with its
-- payload, and leaves the other bytes.
pub read_frames-write_messages :
    (crc : Bytes → ℕ) (max : ℤ) (ms : List Message) (rest : Bytes)
    → AllFit crc max ms
    → (w : Bytes) × (write_messages crc ms [] ≡ (w, nil))
      × (read_frames crc max (length ms) (w ++ rest) ≡ (ok (map (frame_for crc) ms), rest))
read_frames-write_messages crc max ms rest h =
    (all_encoded crc ms, write_messages_lem crc max ms [] h, read_frames-encoded crc max ms rest h)
