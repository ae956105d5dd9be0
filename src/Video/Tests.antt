-- ===== src/Video/Tests.antt =====
-- A data frame and a ping, with the sum of the bytes for a checksum.
use relay_x.Prelude.{◌≡◌, refl, inr, List, [], ◌∷◌, ◌++◌, arith, map, ℕ, ◌+◌}
use relay_x.Prelude.Int.{pos}
use relay_x.Errors.{nil, ok}
use relay_x.Video.Bytes.{Bytes}
use relay_x.Video.Frames.{Frame, read_frame}
use relay_x.Video.Reading.{Received, read_frame-Received}
use relay_x.Video.Trip.{Fits, encoded, read_frame-encoded}
use relay_x.Video.Stream.{
  Message, data_message, ping_message, frame_for, write_messages, read_frames, AllFit,
  read_frames-write_messages,
}

abbrev sum_of : Bytes → ℕ
sum_of [] = 0
sum_of (b ∷ s) = b + sum_of s

abbrev messages : List Message
messages = data_message 7 (pos 1000) (3 ∷ 4 ∷ []) ∷ ping_message 8 (pos 2000) ∷ []

abbrev first_frame : Frame
first_frame = frame_for sum_of (data_message 7 (pos 1000) (3 ∷ 4 ∷ []))

first_frame-Fits : Fits (pos 16) first_frame
first_frame-Fits = record {
  seq = omega arith;
  sent = omega arith;
  server_recv = omega arith;
  server_send = omega arith;
  crc32 = omega arith;
  payload = omega arith;
  allowed = refl;
}

ping-Fits : Fits (pos 16) (frame_for sum_of (ping_message 8 (pos 2000)))
ping-Fits = record {
  seq = omega arith;
  sent = omega arith;
  server_recv = omega arith;
  server_send = omega arith;
  crc32 = omega arith;
  payload = omega arith;
  allowed = refl;
}

messages-AllFit : AllFit sum_of (pos 16) messages
messages-AllFit = (first_frame-Fits, (ping-Fits, tt))

read_frames-write_messages_example :
    (w : Bytes) × (write_messages sum_of messages [] ≡ (w, nil))
    × (read_frames sum_of (pos 16) 2 (w ++ 9 ∷ []) ≡ (ok (map (frame_for sum_of) messages), 9 ∷ []))
read_frames-write_messages_example =
    read_frames-write_messages sum_of (pos 16) messages (9 ∷ []) messages-AllFit

first_frame-read :
    read_frame sum_of (pos 16) (encoded first_frame ++ 9 ∷ []) ≡ (ok first_frame, 9 ∷ [])
first_frame-read =
    read_frame-encoded sum_of (pos 16) first_frame (9 ∷ []) first_frame-Fits (inr refl)

read_frame-Received_example :
    Received sum_of (pos 16) (encoded first_frame ++ 9 ∷ []) first_frame (9 ∷ [])
read_frame-Received_example =
    read_frame-Received sum_of (pos 16) (encoded first_frame ++ 9 ∷ []) first_frame-read
