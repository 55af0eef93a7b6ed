-- ===== src/Sync/Transport.antt =====
-- `SendAll` and `SendProtocolMessage`, which client/sync_server.cpp and client/sync_client.cpp each
-- have a copy of. The sockets are parameters: `send` takes some of the bytes that it is given.
use share_note_pad.Base.{
  ℕ, zero, suc, ◌≤◌, Bool, true, false, List, [], ◌∷◌, ◌++◌, length, take, drop, Bytes,
  if◌then◌else◌, ◌==◌,
}
use share_note_pad.Protocol.Codec.{ok, err, TextApi, serialize_message}
use share_note_pad.Protocol.Frame.{encode_frame}
use share_note_pad.Protocol.Message.{ProtocolMessage}

-- What the sockets have taken so far, with the socket of each piece.
abbrev pub Wire : Type 0
Wire = List (ℕ × Bytes)

-- The Winsock call `send`, whose answer may depend on all that was sent before: the number of bytes
-- that it takes, with 0 for an error. It never takes more than it is given.
pub record Net : Type 0 where
  pub send : Wire → ℕ → Bytes → ℕ
  pub send_le : (wire : Wire) (socket : ℕ) (bytes : Bytes) → send wire socket bytes ≤ length bytes

-- The bytes that one socket has taken.
unfoldable pub stream : ℕ → Wire → Bytes
stream socket [] = []
stream socket ((s, piece) ∷ wire) = (if s == socket then piece else []) ++ stream socket wire

module _ (net : Net) where
  -- A round of the loop takes at least one byte, so `length bytes` rounds are enough.
  unfoldable pub send_rounds : ℕ → Wire → ℕ → Bytes → Wire × Bool
  send_rounds rounds wire socket [] = (wire, true)
  send_rounds zero wire socket (b ∷ bytes) = (wire, false)
  send_rounds (suc rounds) wire socket (b ∷ bytes) = elim (net.send wire socket (b ∷ bytes)) [
    | zero ↦ (wire, false)
    | suc more ↦
        send_rounds rounds (wire ++ (socket, take (suc more) (b ∷ bytes)) ∷ []) socket
          (drop (suc more) (b ∷ bytes))
  ]

  unfoldable pub send_all : Wire → ℕ → Bytes → Wire × Bool
  send_all wire socket bytes = send_rounds (length bytes) wire socket bytes

  module _ (api : TextApi) where
    unfoldable pub send_protocol_message : Wire → ℕ → ProtocolMessage → Wire × Bool
    send_protocol_message wire socket message = elim (serialize_message api message) [
      | ok json ↦ send_all wire socket (encode_frame json)
      | err _ ↦ (wire, false)
    ]
