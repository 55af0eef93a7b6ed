-- ===== src/Sync/Heartbeat.antt =====
-- What a round of `HeartbeatLoop` of client/sync_client.cpp does.
use share_note_pad.Base.{
  ℕ, ◌+◌, ◌-◌, ◌^◌, ◌%◌, ◌<◌, ◌≤◌, ◌≡◌, refl, sym, ap, ◌∙◌, true, false, not, ◌||◌, Option, some,
  none, [], ◌∷◌, ◌++◌, ltb, leb, Text, codes, arith, Bool-cases, inl, inr,
}
use share_note_pad.Protocol.Codec.{TextApi}
use share_note_pad.Protocol.Message.{empty_message}
use share_note_pad.Sync.Client.{
  Client, heartbeat_timeout_ms, heartbeat_interval_ms, close_opened, close_client_socket, heartbeat,
  send_ping,
}
use share_note_pad.Sync.Joining.{SameConnection, enqueue_message-same}
use share_note_pad.Sync.Server.{SyncEvent, disconnected_event}
use share_note_pad.Sync.Transport.{Net}

-- The difference of two ticks of the clock.
elapsed : (now last : ℕ) → last ≤ now → now < 2 ^ 64 → (now + 2 ^ 64 - last) % 2 ^ 64 ≡ now - last
elapsed now last h fits = omega arith

close_client_socket-none :
    (c : Client)
    → ((close_client_socket c).socket ≡ none)
      × ((close_client_socket c).connected ≡ c.connected)
      × ((close_client_socket c).event_queue ≡ c.event_queue)
unfolding close_client_socket close_opened
close_client_socket-none c = closed c.socket refl
  where
    closed :
        (socket : Option ℕ)
        → socket ≡ c.socket
        → ((close_opened socket c).socket ≡ none)
          × ((close_opened socket c).connected ≡ c.connected)
          × ((close_opened socket c).event_queue ≡ c.event_queue)
    closed none e = (sym e, refl, refl)
    closed (some socket) e = (refl, refl, refl)

close_client_socket-error : (c : Client) → (close_client_socket c).last_error ≡ c.last_error
unfolding close_client_socket close_opened
close_client_socket-error c = closed c.socket
  where
    closed : (socket : Option ℕ) → (close_opened socket c).last_error ≡ c.last_error
    closed none = refl
    closed (some socket) = refl

abbrev pub event : Text → SyncEvent
event detail = record { type = disconnected_event; message = empty_message; detail = detail }

module _ (api : TextApi) (net : Net) where
  send_ping-same : (c : Client) (now : ℕ) → SameConnection c (send_ping api c now).0
  unfolding send_ping
  send_ping-same c now = enqueue_message-same api net c _

  -- A connected client that has had a PONG within the last 15 seconds stays connected on its socket.
  -- One that has not is disconnected in the next round: its socket is closed, the thread ends, and
  -- the window is told once. The ticks are those of a clock that does not wrap around.
  pub heartbeat_outcome :
      (c : Client) (now : ℕ)
      → c.stopping ≡ false
      → c.connected ≡ true
      → c.last_pong_tick_ms ≤ now
      → c.last_ping_tick_ms ≤ now
      → now < 2 ^ 64
      → let (d, stays) = heartbeat api c now in
        (now - c.last_pong_tick_ms ≤ heartbeat_timeout_ms
          → (stays ≡ true) × (d.connected ≡ true) × (d.socket ≡ c.socket))
        × (heartbeat_timeout_ms < now - c.last_pong_tick_ms
            → (stays ≡ false)
              × (d.connected ≡ false)
              × (d.socket ≡ none)
              × (d.event_queue ≡ c.event_queue ++ event (codes "heartbeat timeout") ∷ []))
  unfolding heartbeat
  heartbeat_outcome c now running on pong ping fits =
      let idle : (c.stopping || not c.connected) ≡ false = ground arith in
      let since = elapsed now c.last_pong_tick_ms pong fits in
      (
        λ recent.
            let heard : ltb heartbeat_timeout_ms ((now + 2 ^ 64 - c.last_pong_tick_ms) % 2 ^ 64)
                ≡ false =
              ground (arith, since) in
            elim (Bool-cases
              (leb heartbeat_interval_ms ((now + 2 ^ 64 - c.last_ping_tick_ms) % 2 ^ 64))) [
                | inl due ↦
                    let (kept, _, socket, _) =
                      send_ping-same (record c { last_ping_tick_ms = now }) now in
                    rw (idle, heard, due, heartbeat) (refl, kept ∙ on, socket)
                | inr early ↦ rw (idle, heard, early, heartbeat) (refl, on, refl)
              ],
        λ silent.
            let gone : ltb heartbeat_timeout_ms ((now + 2 ^ 64 - c.last_pong_tick_ms) % 2 ^ 64)
                ≡ true =
              ground (arith, since) in
            let told : Client = record c {
              last_error = codes "heartbeat timeout";
              connected = false;
            } in
            let (shut, off, queue) = close_client_socket-none told in
            let detail = close_client_socket-error told in
            rw (idle, gone, heartbeat)
              (
                refl,
                off,
                shut,
                ap (λ q. q ++ event (close_client_socket told).last_error ∷ []) queue
                    ∙ ap (λ (t : Text). c.event_queue ++ event t ∷ []) detail,
              ),
      )
