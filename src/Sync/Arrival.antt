-- ===== src/Sync/Arrival.antt =====
-- From the bytes of one side to the message of the other: `SendAll` and `ReceiveProtocolMessage`.
use share_note_pad.Base.{
  ℕ, ◌+◌, ◌≤◌, ◌≡◌, ◌≢◌, refl, sym, ap, ◌∙◌, true, false, some, none, List, [], ◌∷◌, ◌++◌,
  append-nil, append_assoc, arith, length, take, drop, Bytes, drop-append, length-append, ltb,
  ltb→lt, take-append_le, length-pos, Bool-cases, inl, inr,
}
use share_note_pad.Protocol.Codec.{
  ok, err, Result-cases, TextApi, serialize_message, deserialize_message, max_frame_payload_bytes,
}
use share_note_pad.Protocol.Frame.{
  FrameDecoder, append, try_read_frame, encode_frame, read_big_endian_length,
}
use share_note_pad.Protocol.Framing.{
  try_read_frame-encode_frame, try_read_frame-head, try_read_frame-short, length-encode_frame,
  append-buffer, frame_size,
}
use share_note_pad.Protocol.Message.{ProtocolMessage, ProtocolError, no_error}
use share_note_pad.Protocol.RoundTrip.Messages.{
  IsMessage, Received, deserialize-serialize, serialize_message-fits,
}
use share_note_pad.Sync.Receive.{
  Recv, received, closes, times_out, fails, receive_from, read_payload, receive_protocol_message,
  message,
}
use share_note_pad.Sync.Sending.{Sent-complete, send_all-Sent}
use share_note_pad.Sync.Transport.{Wire, Net, stream, send_all, send_protocol_message}

left_nil : (xs ys : Bytes) → xs ++ ys ≡ [] → xs ≡ []
left_nil [] ys h = refl
left_nil (x ∷ xs) ys h = cc

-- A buffer that holds a proper first part of a frame gives nothing, and is kept.
pub try_read_frame-part :
    (p part rest : Bytes)
    → length p ≤ max_frame_payload_bytes
    → encode_frame p ≡ part ++ rest
    → rest ≢ []
    → try_read_frame (record { buffer = part }) ≡ (record { buffer = part }, none, no_error)
try_read_frame-part p part rest fits e ne =
    let total : length part + length rest ≡ length p + 4 =
      omega (arith, ap length e, length-append part rest, length-encode_frame p) in
    elim (Bool-cases (ltb (length part) 4)) [
      | inl short ↦ try_read_frame-head part (ltb→lt (length part) 4 short)
      | inr four ↦
          let size : read_big_endian_length (take 4 part) ≡ length p = size_of_part four in
          try_read_frame-short part (omega arith) (omega (arith, size, length-pos rest ne))
    ]
  where
    size_of_part : ltb (length part) 4 ≡ false → read_big_endian_length (take 4 part) ≡ length p
    size_of_part four =
        ap read_big_endian_length (
          sym (take-append_le 4 part rest (ground arith))
          ∙ ap (take 4) (sym e ∙ sym (append-nil (encode_frame p))))
        ∙ frame_size p [] fits

-- The pieces in which the bytes arrive.
unfoldable pub joined : List (Bytes × ℕ) → Bytes
joined [] = []
joined ((bytes, tick) ∷ pieces) = bytes ++ joined pieces

abbrev pub arrivals : List (Bytes × ℕ) → List (Recv × ℕ) → List (Recv × ℕ)
arrivals [] more = more
arrivals ((bytes, tick) ∷ pieces) more = (received bytes, tick) ∷ arrivals pieces more

-- `recv` gives one byte at least.
abbrev pub NoneEmpty : List (Bytes × ℕ) → Type 0
NoneEmpty [] = Unit
NoneEmpty ((bytes, tick) ∷ pieces) = (bytes ≢ []) × NoneEmpty pieces

not_sent : ¬ (false ≡ true)
not_sent e = cc

module _ (api : TextApi) where
  receive_from-ready :
      (d d' : FrameDecoder) (payload : Bytes) (e : ProtocolError) (inputs : List (Recv × ℕ))
      (now : ℕ)
      → try_read_frame d ≡ (d', some payload, e)
      → receive_from api d inputs now
        ≡ (read_payload api payload, record { decoder = d'; inputs = inputs; now = now })
  unfolding receive_from
  receive_from-ready d d' payload e [] now h = rw (h, receive_from) refl
  receive_from-ready d d' payload e ((received bytes, tick) ∷ inputs) now h =
      rw (h, receive_from) refl
  receive_from-ready d d' payload e ((closes, tick) ∷ inputs) now h = rw (h, receive_from) refl
  receive_from-ready d d' payload e ((times_out, tick) ∷ inputs) now h = rw (h, receive_from) refl
  receive_from-ready d d' payload e ((fails, tick) ∷ inputs) now h = rw (h, receive_from) refl

  receive_from-more :
      (d d' : FrameDecoder) (bytes : Bytes) (tick : ℕ) (inputs : List (Recv × ℕ)) (now : ℕ)
      → try_read_frame d ≡ (d, none, no_error)
      → append d bytes ≡ (d', true, no_error)
      → receive_from api d ((received bytes, tick) ∷ inputs) now ≡ receive_from api d' inputs tick
  unfolding receive_from
  receive_from-more d d' bytes tick inputs now h k = rw (h, receive_from, k) refl

  -- A frame that arrives in any pieces is read as soon as it is whole, and leaves nothing behind.
  pub receive_from-frame :
      (pieces : List (Bytes × ℕ)) (p buffer : Bytes) (more : List (Recv × ℕ)) (now : ℕ)
      → length p ≤ max_frame_payload_bytes
      → NoneEmpty pieces
      → buffer ++ joined pieces ≡ encode_frame p
      → let (result, c) =
          receive_from api (record { buffer = buffer }) (arrivals pieces more) now in
        (result ≡ read_payload api p) × (c.decoder.buffer ≡ []) × (c.inputs ≡ more)
  unfolding joined
  receive_from-frame [] p buffer more now fits full e =
      let whole : buffer ≡ encode_frame p ++ [] =
        sym (append-nil buffer) ∙ e ∙ sym (append-nil (encode_frame p)) in
      rw (whole, receive_from-ready _ _ _ _ more now (try_read_frame-encode_frame p [] fits))
        (refl, refl, refl)
  receive_from-frame ((bytes, tick) ∷ pieces) p buffer more now fits full e =
      let split : encode_frame p ≡ (buffer ++ bytes) ++ joined pieces =
        sym e ∙ sym (append_assoc buffer bytes (joined pieces)) in
      let total : length p + 4 ≡ length buffer + length bytes + length (joined pieces) = omega (
        arith,
        ap length split,
        length-append (buffer ++ bytes) (joined pieces),
        length-append buffer bytes,
        length-encode_frame p,
      ) in
      let waits =
        try_read_frame-part p buffer (bytes ++ joined pieces) fits (sym e)
          (λ x. full.0 (left_nil bytes (joined pieces) x)) in
      let fills = append-buffer (record { buffer = buffer }) bytes (omega arith) in
      rw (receive_from-more _ _ bytes tick (arrivals pieces more) now waits fills)
        (receive_from-frame pieces p (buffer ++ bytes) more tick fits full.1 (sym split))

  read_payload-ok :
      (bytes : Bytes) (m : ProtocolMessage)
      → deserialize_message api bytes ≡ ok m
      → read_payload api bytes ≡ message m
  unfolding read_payload
  read_payload-ok bytes m e = rw (e, read_payload) refl

  module _ (net : Net) where
    -- A message that was sent: its text, and the frame on the socket.
    pub record SentMessage (w w' : Wire) (socket : ℕ) (m : ProtocolMessage) : Type 0 where
      pub json : Bytes
      pub serialized : serialize_message api m ≡ ok json
      pub grows : stream socket w' ≡ stream socket w ++ encode_frame json

    send_ok :
        (w : Wire) (socket : ℕ) (m : ProtocolMessage) (json : Bytes)
        → serialize_message api m ≡ ok json
        → send_protocol_message net api w socket m ≡ send_all net w socket (encode_frame json)
    unfolding send_protocol_message
    send_ok w socket m json e = rw (e, send_protocol_message) refl

    send_err :
        (w : Wire) (socket : ℕ) (m : ProtocolMessage) (reason : ProtocolError)
        → serialize_message api m ≡ err reason
        → send_protocol_message net api w socket m ≡ (w, false)
    unfolding send_protocol_message
    send_err w socket m reason e = rw (e, send_protocol_message) refl

    pub send_protocol_message-SentMessage :
        (w w' : Wire) (socket : ℕ) (m : ProtocolMessage)
        → send_protocol_message net api w socket m ≡ (w', true)
        → SentMessage w w' socket m
    send_protocol_message-SentMessage w w' socket m h =
        elim (Result-cases (serialize_message api m)) [
          | inr (reason, e) ↦
              absurd (not_sent (ap (λ r. r.1) (sym (send_err w socket m reason e) ∙ h)))
          | inl (json, e) ↦ record {
            json = json;
            serialized = e;
            grows = Sent-complete w w' socket (encode_frame json) (
                rw (sym (send_ok w socket m json e) ∙ h) at
                  (send_all-Sent net w socket (encode_frame json)));
          }
        ]

    -- End to end: a message that one side sends with success reaches the other side. If the bytes
    -- that the sending added to the socket arrive in any pieces, the receiver, with an empty
    -- decoder, reads exactly the message, waits for nothing more and keeps nothing back. The maps
    -- of the message are in order and its numbers are below 2^64.
    pub receive-send :
        (w w' : Wire) (socket : ℕ) (m : ProtocolMessage) (pieces : List (Bytes × ℕ))
        (more : List (Recv × ℕ)) (now : ℕ)
        → IsMessage m
        → send_protocol_message net api w socket m ≡ (w', true)
        → NoneEmpty pieces
        → joined pieces ≡ drop (length (stream socket w)) (stream socket w')
        → let (result, c) = receive_protocol_message api (record {
          decoder = record { buffer = [] };
          inputs = arrivals pieces more;
          now = now;
        }) in
          (m' : ProtocolMessage) × (result ≡ message m')
          × Received m m'
          × (c.decoder.buffer ≡ [])
          × (c.inputs ≡ more)
    unfolding receive_protocol_message
    receive-send w w' socket m pieces more now v h full e =
        let s = send_protocol_message-SentMessage w w' socket m h in
        let (m', read, r) = deserialize-serialize api m s.json v s.serialized in
        let all : joined pieces ≡ encode_frame s.json =
          e
          ∙ ap (drop (length (stream socket w))) s.grows
          ∙ drop-append (stream socket w) (encode_frame s.json) in
        let (result, decoder, inputs) =
          receive_from-frame pieces s.json [] more now
            (serialize_message-fits api m s.json s.serialized) full all in
        (m', result ∙ read_payload-ok s.json m' read, r, decoder, inputs)
