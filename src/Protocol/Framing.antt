-- ===== src/Protocol/Framing.antt =====
-- Frames of client/protocol.cpp: what `EncodeFrame` writes, the decoder reads.
use share_note_pad.Base.{
  ℕ, ◌+◌, ◌^◌, ◌<◌, ◌≤◌, ◌≡◌, refl, ap, ◌∙◌, true, false, some, none, [], ◌++◌, length, take, drop,
  Bytes, arith, length-append, take-append, drop-append, append_assoc, append-nil,
}
use share_note_pad.Protocol.Codec.{max_frame_payload_bytes}
use share_note_pad.Protocol.Frame.{
  FrameDecoder, length_bytes, encode_frame, read_big_endian_length, clear, append, try_read_frame,
}
use share_note_pad.Protocol.Message.{no_error, frame_too_large}

pub length-encode_frame : (p : Bytes) → length (encode_frame p) ≡ length p + 4
unfolding encode_frame length_bytes
length-encode_frame p = omega arith

-- The four bytes give the length back, up to the 32 bits that they have.
pub read_big_endian_length-length_bytes :
    (size : ℕ) → size < 2 ^ 32 → read_big_endian_length (length_bytes size) ≡ size
unfolding read_big_endian_length length_bytes
read_big_endian_length-length_bytes size h = omega arith

take-length_bytes :
    (size : ℕ) (rest : Bytes) → take 4 (length_bytes size ++ rest) ≡ length_bytes size
unfolding length_bytes
take-length_bytes size rest = refl

-- The three cases of a buffer with a length in front.
try_read_frame-ready :
    (buffer : Bytes) (size : ℕ)
    → read_big_endian_length (take 4 buffer) ≡ size
    → size ≤ max_frame_payload_bytes
    → size + 4 ≤ length buffer
    → try_read_frame (record { buffer = buffer })
      ≡ (record { buffer = drop (size + 4) buffer }, some (take size (drop 4 buffer)), no_error)
unfolding try_read_frame
try_read_frame-ready buffer size e fits whole = ground arith

pub frame_size :
    (p rest : Bytes)
    → length p ≤ max_frame_payload_bytes
    → read_big_endian_length (take 4 (encode_frame p ++ rest)) ≡ length p
unfolding encode_frame
frame_size p rest fits = rw (append_assoc (length_bytes (length p)) p rest) (
    rw (take-length_bytes (length p) (p ++ rest))
      (read_big_endian_length-length_bytes (length p) (omega arith)))

drop_4-encode_frame : (p rest : Bytes) → drop 4 (encode_frame p ++ rest) ≡ p ++ rest
unfolding encode_frame length_bytes
drop_4-encode_frame p rest = refl

drop_all-encode_frame : (p rest : Bytes) → drop (length p + 4) (encode_frame p ++ rest) ≡ rest
drop_all-encode_frame p rest = rw (← length-encode_frame p) (drop-append (encode_frame p) rest)

-- A whole frame in front of the buffer is read: its payload is given, and the bytes behind it stay.
pub try_read_frame-encode_frame :
    (p rest : Bytes)
    → length p ≤ max_frame_payload_bytes
    → try_read_frame (record { buffer = encode_frame p ++ rest })
      ≡ (record { buffer = rest }, some p, no_error)
try_read_frame-encode_frame p rest fits =
    try_read_frame-ready (encode_frame p ++ rest) (length p) (frame_size p rest fits) fits
      (omega (arith, length-append (encode_frame p) rest, length-encode_frame p))
    ∙ rw (drop_all-encode_frame p rest, drop_4-encode_frame p rest) (rw (take-append p rest))

-- Fewer bytes than a length, or than the length says, are kept and give nothing.
pub try_read_frame-short :
    (buffer : Bytes)
    → read_big_endian_length (take 4 buffer) ≤ max_frame_payload_bytes
    → length buffer < read_big_endian_length (take 4 buffer) + 4
    → try_read_frame (record { buffer = buffer }) ≡ (record { buffer = buffer }, none, no_error)
unfolding try_read_frame
try_read_frame-short buffer fits short = ground arith

pub try_read_frame-head :
    (buffer : Bytes)
    → length buffer < 4
    → try_read_frame (record { buffer = buffer }) ≡ (record { buffer = buffer }, none, no_error)
unfolding try_read_frame
try_read_frame-head buffer short = ground arith

-- A length above the limit is an error, and the buffer is dropped.
pub try_read_frame-oversized :
    (buffer : Bytes)
    → 4 ≤ length buffer
    → max_frame_payload_bytes < read_big_endian_length (take 4 buffer)
    → try_read_frame (record { buffer = buffer }) ≡ (clear, none, frame_too_large)
unfolding try_read_frame
try_read_frame-oversized buffer four large = ground arith

pub append-buffer :
    (d : FrameDecoder) (bytes : Bytes)
    → length d.buffer + length bytes ≤ max_frame_payload_bytes + 4
    → append d bytes ≡ (record { buffer = d.buffer ++ bytes }, true, no_error)
unfolding append
append-buffer d bytes fits = ground arith

append-overflow :
    (d : FrameDecoder) (bytes : Bytes)
    → max_frame_payload_bytes + 4 < length d.buffer + length bytes
    → append d bytes ≡ (clear, false, frame_too_large)
unfolding append
append-overflow d bytes large = ground arith

-- A frame that arrives in two pieces, the second one with the first bytes of what follows: the
-- buffer has room for one frame and no more, so the connection fails whenever the bytes that came
-- along do not fit, although every frame on the wire is valid and the same bytes are read if they
-- come one frame after the other.
pub append_refuses_coalesced :
    (p first second next : Bytes)
    → length p ≤ max_frame_payload_bytes
    → encode_frame p ≡ first ++ second
    → max_frame_payload_bytes < length p + length next
    → (append (record { buffer = first }) (second ++ next) ≡ (clear, false, frame_too_large))
      × (append (record { buffer = first }) second
          ≡ (record { buffer = encode_frame p }, true, no_error))
      × (try_read_frame (record { buffer = encode_frame p }) ≡ (clear, some p, no_error))
append_refuses_coalesced p first second next fits e large =
    let size : length first + length second ≡ length p + 4 =
      omega (arith, ap length e, length-append first second, length-encode_frame p) in
    (
      append-overflow (record { buffer = first }) (second ++ next)
          (omega (arith, length-append second next)),
      append-buffer (record { buffer = first }) second (omega arith) ∙ rw (← e) refl,
      rw (append-nil (encode_frame p)) at (try_read_frame-encode_frame p [] fits),
    )
