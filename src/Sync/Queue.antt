-- ===== src/Sync/Queue.antt =====
-- The order in which the client of client/sync_client.cpp sends what was put into its queue.
use share_note_pad.Base.{
  ℕ, ◌≡◌, ◌≢◌, refl, sym, ap, ◌∙◌, true, false, not, ◌||◌, some, List, [], ◌∷◌, ◌++◌, append-nil,
  append_assoc, if◌then◌else◌, Bytes, Bool-cases, inl, inr,
}
use share_note_pad.Protocol.Codec.{ok, TextApi, serialize_message}
use share_note_pad.Protocol.Frame.{encode_frame}
use share_note_pad.Protocol.Message.{ProtocolMessage}
use share_note_pad.Sync.Client.{Client, enqueue_message, send_frame, send_next, send_round}
use share_note_pad.Sync.Sending.{Sent-complete, send_all-Sent}
use share_note_pad.Sync.Transport.{Net, stream, send_all}

-- Frames in a row.
unfoldable pub concat : List Bytes → Bytes
concat [] = []
concat (frame ∷ frames) = frame ++ concat frames

concat-append : (xs ys : List Bytes) → concat (xs ++ ys) ≡ concat xs ++ concat ys
unfolding concat
concat-append [] ys = refl
concat-append (x ∷ xs) ys = rw (concat-append xs ys) (sym (append_assoc x (concat xs) (concat ys)))

-- What a socket has taken and the queue still holds.
unfoldable pub pending : ℕ → Client → Bytes
pending socket c = stream socket c.wire ++ concat c.send_queue

not_true : false ≢ true
not_true e = cc

module _ (api : TextApi) (net : Net) where
  -- The queue and the sender in any order: a successful round of the sender, or a message that is
  -- taken into the queue. The list holds the frames of the messages.
  pub data Run : Client → List Bytes → Client → Type 0 where
    idle : (c : Client) → Run c [] c
    sends :
        (c c' d : Client) (frames : List Bytes)
        → send_round api net c ≡ (c', true)
        → Run c' frames d
        → Run c frames d
    queues :
        (c c' d : Client) (frames : List Bytes) (m : ProtocolMessage) (json : Bytes)
        → serialize_message api m ≡ ok json
        → enqueue_message api c m ≡ (c', true)
        → Run c' frames d
        → Run c (encode_frame json ∷ frames) d

  send_frame-sent :
      (socket : ℕ) (c c' : Client) (frame : Bytes)
      → send_frame api net (some socket) c frame ≡ (c', true)
      → (c' ≡ (let d : Client = record c { wire = (send_all net c.wire socket frame).0 } in d))
        × ((send_all net c.wire socket frame).1 ≡ true)
  unfolding send_frame
  send_frame-sent socket c c' frame h = elim (Bool-cases (send_all net c.wire socket frame).1) [
    | inl e ↦ (sym (ap (λ r. r.0) (rw (e, send_frame) at h)), e)
    | inr e ↦ absurd (not_true (ap (λ r. r.1) (rw (e, send_frame) at h)))
  ]

  send_next-pending :
      (socket : ℕ) (c c' : Client) (queue : List Bytes)
      → c.send_queue ≡ queue
      → c.socket ≡ some socket
      → send_next api net c queue ≡ (c', true)
      → (pending socket c' ≡ pending socket c) × (c'.socket ≡ some socket)
  unfolding send_next send_frame pending concat
  send_next-pending socket c c' [] q at_socket h =
      let same : c ≡ c' = ap (λ r. r.0) h in
      (ap (pending socket) (sym same), ap (λ (d : Client). d.socket) (sym same) ∙ at_socket)
  send_next-pending socket c c' (frame ∷ frames) q at_socket h =
      let popped : Client = record c { send_queue = frames } in
      let (e, sent) =
        send_frame-sent socket popped c' frame
          (ap (λ k. send_frame api net k popped frame) (sym at_socket) ∙ h) in
      let w = (send_all net c.wire socket frame).0 in
      let grown : stream socket w ≡ stream socket c.wire ++ frame =
        Sent-complete c.wire w socket frame (rw sent at (send_all-Sent net c.wire socket frame)) in
      (
        ap (pending socket) e
            ∙ ap (λ t. t ++ concat frames) grown
            ∙ append_assoc (stream socket c.wire) frame (concat frames)
            ∙ ap (λ t. stream socket c.wire ++ concat t) (sym q),
        ap (λ (d : Client). d.socket) e ∙ at_socket,
      )

  send_round-pending :
      (socket : ℕ) (c c' : Client)
      → c.socket ≡ some socket
      → send_round api net c ≡ (c', true)
      → (pending socket c' ≡ pending socket c) × (c'.socket ≡ some socket)
  unfolding send_round
  send_round-pending socket c c' at_socket h = elim (Bool-cases c.stopping) [
    | inl e ↦ absurd (not_true (ap (λ r. r.1) (rw (e, send_round) at h)))
    | inr e ↦
        send_next-pending socket c c' c.send_queue refl at_socket
          (ap (λ b. if b then (c, false) else send_next api net c c.send_queue) (sym e) ∙ h)
  ]

  enqueue_message-pending :
      (socket : ℕ) (c c' : Client) (m : ProtocolMessage) (json : Bytes)
      → serialize_message api m ≡ ok json
      → enqueue_message api c m ≡ (c', true)
      → (pending socket c' ≡ pending socket c ++ encode_frame json) × (c'.socket ≡ c.socket)
  unfolding enqueue_message pending concat
  enqueue_message-pending socket c c' m json e h =
      elim (Bool-cases (not c.connected || c.stopping)) [
        | inl off ↦ absurd (not_true (ap (λ r. r.1) (rw (e, enqueue_message, off) at h)))
        | inr on ↦
            let same = ap (λ r. r.0) (rw (e, enqueue_message, on) at h) in
            (
              ap (pending socket) (sym same)
                  ∙ ap (λ t. stream socket c.wire ++ t)
                      (concat-append c.send_queue (encode_frame json ∷ [])
                        ∙ ap (λ t. concat c.send_queue ++ t) (append-nil (encode_frame json)))
                  ∙ sym (
                      append_assoc (stream socket c.wire) (concat c.send_queue)
                        (encode_frame json)),
              ap (λ (d : Client). d.socket) (sym same),
            )
      ]

  -- What the client puts on its socket is what it put into its queue, in that order: in every run
  -- of the sender and of those who send messages, in any interleaving, the bytes that the socket has
  -- taken and the frames that are still queued are those of the beginning, followed by the frames of
  -- the messages of the run.
  pub Run-pending :
      (socket : ℕ) (c d : Client) (frames : List Bytes)
      → Run c frames d
      → c.socket ≡ some socket
      → pending socket d ≡ pending socket c ++ concat frames
  unfolding concat
  Run-pending socket c d frames (idle _) at_socket = sym (append-nil (pending socket c))
  Run-pending socket c d frames (sends _ c' _ _ step run) at_socket =
      let (kept, still) = send_round-pending socket c c' at_socket step in
      Run-pending socket c' d frames run still ∙ ap (λ t. t ++ concat frames) kept
  Run-pending socket c d frames (queues _ c' _ rest m json e step run) at_socket =
      let (grown, still) = enqueue_message-pending socket c c' m json e step in
      Run-pending socket c' d rest run (still ∙ at_socket)
      ∙ ap (λ t. t ++ concat rest) grown
      ∙ append_assoc (pending socket c) (encode_frame json) (concat rest)
