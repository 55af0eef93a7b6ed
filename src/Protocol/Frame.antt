-- ===== src/Protocol/Frame.antt =====
-- `EncodeFrame` and `FrameDecoder` of client/protocol.cpp. A byte is a number below 256.
use share_note_pad.Base.{
  ℕ, ◌+◌, ◌*◌, ◌/◌, ◌%◌, ◌^◌, Bool, true, false, Option, some, none, [], ◌∷◌, ◌++◌, ltb,
  if◌then◌else◌, length, take, drop, Bytes,
}
use share_note_pad.Protocol.Codec.{max_frame_payload_bytes}
use share_note_pad.Protocol.Message.{ProtocolError, no_error, frame_too_large}

-- The member `buffer_`.
pub record FrameDecoder : Type 0 where
  pub buffer : Bytes

-- `static_cast<uint32_t>(payload.size())` and its four bytes, the highest first.
unfoldable pub length_bytes : ℕ → Bytes
length_bytes size =
    let length = size % 2 ^ 32 in
    (length / 2 ^ 24 % 256) ∷ (length / 2 ^ 16 % 256) ∷ (length / 2 ^ 8 % 256) ∷ (length % 256) ∷ []

unfoldable pub encode_frame : Bytes → Bytes
encode_frame payload = length_bytes (length payload) ++ payload

-- The four shifted bytes have no bit in common: `|` is their sum.
unfoldable pub read_big_endian_length : Bytes → ℕ
read_big_endian_length (b0 ∷ b1 ∷ b2 ∷ b3 ∷ _) = b0 * 2 ^ 24 + b1 * 2 ^ 16 + b2 * 2 ^ 8 + b3
read_big_endian_length _ = 0

abbrev pub clear : FrameDecoder
clear = record { buffer = [] }

-- The decoder, the result and the error that the call stores.
unfoldable pub append : FrameDecoder → Bytes → FrameDecoder × Bool × ProtocolError
append d bytes =
    if ltb (max_frame_payload_bytes + 4) (length d.buffer + length bytes)
    then (clear, false, frame_too_large)
    else (record d { buffer = d.buffer ++ bytes }, true, no_error)

-- The decoder, the payload if the call returns true, and the error that it stores.
unfoldable pub try_read_frame : FrameDecoder → FrameDecoder × Option Bytes × ProtocolError
try_read_frame d =
    let size = read_big_endian_length (take 4 d.buffer) in
    if ltb (length d.buffer) 4
    then (d, none, no_error)
    else if ltb max_frame_payload_bytes size
    then (clear, none, frame_too_large)
    else if ltb (length d.buffer) (size + 4)
    then (d, none, no_error)
    else (
      record d { buffer = drop (size + 4) d.buffer },
      some (take size (drop 4 d.buffer)),
      no_error,
    )
