-- ===== src/Sync/Receive.antt =====
-- `ReceiveProtocolMessage` and `ReceiveProtocolMessageWithin`, which client/sync_server.cpp and
-- client/sync_client.cpp each have a copy of.
use share_note_pad.Base.{
  ℕ, zero, suc, ◌+◌, Bool, true, false, Option, some, none, List, [], ◌∷◌, leb, length, Bytes,
  if◌then◌else◌,
}
use share_note_pad.Protocol.Codec.{ok, err, TextApi, deserialize_message}
use share_note_pad.Protocol.Frame.{FrameDecoder, append, try_read_frame}
use share_note_pad.Protocol.Message.{ProtocolMessage, ProtocolError, no_error}

-- What `recv` gives: bytes (one at least), the end of the stream, a timeout, another error.
pub data Recv : Type 0 where
  received : Bytes → Recv
  closes : Recv
  times_out : Recv
  fails : Recv

-- A connection as its thread sees it: the decoder, the results of `recv` to come with the tick at
-- which each is there, and the tick now.
pub record Connection : Type 0 where
  pub decoder : FrameDecoder
  pub inputs : List (Recv × ℕ)
  pub now : ℕ

-- ReceiveResult. `waiting` is a thread that stays in `recv`, as no input is left.
pub data ReceiveResult : Type 0 where
  message : ProtocolMessage → ReceiveResult
  timeout closed error waiting : ReceiveResult

abbrev is_no_error : ProtocolError → Bool
is_no_error no_error = true
is_no_error _ = false

module _ (api : TextApi) where
  -- The result for a whole payload.
  unfoldable pub read_payload : Bytes → ReceiveResult
  read_payload payload = elim (deserialize_message api payload) [ ok m ↦ message m | err _ ↦ error ]

  -- After `TryReadFrame`: a payload, an error of the frame, or the rest of the round.
  after_read :
      Option Bytes
      → ProtocolError
      → Connection
      → ReceiveResult × Connection
      → ReceiveResult × Connection
  after_read (some payload) e c later = (read_payload payload, c)
  after_read none e c later = if is_no_error e then later else (error, c)

  -- The loop, over the results of `recv`.
  unfoldable pub receive_from : FrameDecoder → List (Recv × ℕ) → ℕ → ReceiveResult × Connection
  unfolding after_read
  receive_from decoder [] now =
      let (d, payload, e) = try_read_frame decoder in
      let here : Connection = record { decoder = d; inputs = []; now = now } in
      after_read payload e here (waiting, here)
  receive_from decoder ((received bytes, tick) ∷ inputs) now =
      let (d, payload, e) = try_read_frame decoder in
      let (filled, fits, _) = append d bytes in
      let more = receive_from filled inputs tick in
      after_read payload e
        (record { decoder = d; inputs = (received bytes, tick) ∷ inputs; now = now })
        (if fits then more else (error, record { decoder = filled; inputs = inputs; now = tick }))
  receive_from decoder ((closes, tick) ∷ inputs) now =
      let (d, payload, e) = try_read_frame decoder in
      after_read payload e (record { decoder = d; inputs = (closes, tick) ∷ inputs; now = now })
        (closed, record { decoder = d; inputs = inputs; now = tick })
  receive_from decoder ((times_out, tick) ∷ inputs) now =
      let (d, payload, e) = try_read_frame decoder in
      after_read payload e (record { decoder = d; inputs = (times_out, tick) ∷ inputs; now = now })
        (timeout, record { decoder = d; inputs = inputs; now = tick })
  receive_from decoder ((fails, tick) ∷ inputs) now =
      let (d, payload, e) = try_read_frame decoder in
      after_read payload e (record { decoder = d; inputs = (fails, tick) ∷ inputs; now = now })
        (error, record { decoder = d; inputs = inputs; now = tick })

  unfoldable pub receive_protocol_message : Connection → ReceiveResult × Connection
  receive_protocol_message c = receive_from c.decoder c.inputs c.now

  -- The loop of `ReceiveProtocolMessageWithin`: `message` where it returns true and `error` where it
  -- returns false. Each timeout takes an input, so one round more than inputs is enough.
  unfoldable pub receive_rounds : ℕ → Connection → ℕ → ReceiveResult × Connection
  receive_rounds zero c deadline = (waiting, c)
  receive_rounds (suc rounds) c deadline =
      let (result, c') = receive_protocol_message c in
      let round : ReceiveResult × Connection = elim result [
        | message m ↦ (message m, c')
        | timeout ↦ receive_rounds rounds c' deadline
        | closed ↦ (error, c')
        | error ↦ (error, c')
        | waiting ↦ (waiting, c')
      ] in
      if leb c.now deadline then round else (error, c)

  unfoldable pub receive_within : Connection → ℕ → ReceiveResult × Connection
  receive_within c timeout_ms = receive_rounds (suc (length c.inputs)) c (c.now + timeout_ms)
