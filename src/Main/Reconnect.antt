-- ===== src/Main/Reconnect.antt =====
-- `ReconnectLoop` and `HandleReconnectStatus` of client/window.cpp: the thread that connects a guest
-- again. The other threads act between its steps: `stops` says what the loop finds in
-- `reconnect_stop_` before a round, and the connection's answers are arguments for every attempt.
pub mod Trying
use share_note_pad.Base.{
  ℕ, zero, suc, ◌+◌, ◌-◌, ◌*◌, ◌^◌, min, Bool, true, false, not, ◌||◌, List, [], ◌∷◌, ◌++◌, leb,
  ltb, ◌==◌, if◌then◌else◌, Text, codes,
}
use share_note_pad.Main.State.{MainWindow, ReconnectTarget}
use share_note_pad.Protocol.Codec.{TextApi}
use share_note_pad.Protocol.Json.{format_unsigned}
use share_note_pad.Sync.Client.{Client, Opening, connect}
use share_note_pad.Sync.Receive.{ReceiveResult}
use share_note_pad.Sync.Transport.{Net}

-- kMaxReconnectAttempts.
abbrev pub max_reconnect_attempts : ℕ
max_reconnect_attempts = 5

-- What is posted to the window: an attempt, success or failure.
pub data ReconnectStatus : Type 0 where
  attempting : ℕ → ReconnectStatus
  reconnected reconnect_failed : ReconnectStatus

-- The client and the messages that are posted when the loop has ended.
pub record Loop : Type 0 where
  pub client : Client
  pub posted : List ReconnectStatus

unfoldable pub delay_ms : ℕ → ℕ
delay_ms attempt = min 8000 (1000 * 2 ^ min (attempt - 1) 3)

-- What the calls of `Connect` meet at each attempt.
pub record Attempts : Type 0 where
  pub opening : ℕ → Opening
  pub now : ℕ → ℕ
  pub response : ℕ → ReceiveResult

module _ (api : TextApi) (net : Net) (attempts : Attempts) (stops : ℕ → Bool) where
  unfoldable pub connect_again : Client → MainWindow → ℕ → Client × Bool
  connect_again client x attempt =
      connect api net client (attempts.opening attempt) x.session_code x.reconnect.device_id
        x.reconnect.nickname (attempts.now attempt) (attempts.response attempt)

  -- The loop from an attempt on, with at most `rounds` more of them. The message of failure is
  -- posted unless the loop is stopped, whose last look at the flag is that of attempt 6.
  unfoldable pub reconnect_rounds : ℕ → ℕ → Client → MainWindow → List ReconnectStatus → Loop
  reconnect_rounds zero attempt client x posted = record {
    client = client;
    posted = if stops attempt then posted else posted ++ reconnect_failed ∷ [];
  }
  reconnect_rounds (suc rounds) attempt client x posted =
      let (client', connected) = connect_again client x attempt in
      let posted' = posted ++ attempting attempt ∷ [] in
      let more = reconnect_rounds rounds (attempt + 1) client' x posted' in
      if stops attempt
      then record { client = client; posted = posted }
      else if connected
      then record { client = client'; posted = posted' ++ reconnected ∷ [] }
      else more

  -- `ReconnectLoop`; at its end `reconnecting_` is false.
  unfoldable pub reconnect_loop : Client → MainWindow → Loop × MainWindow
  unfolding reconnect_rounds
  reconnect_loop client x =
      (reconnect_rounds max_reconnect_attempts 1 client x [], record x { reconnecting = false })

-- The text of the status line, `HandleReconnectStatus`.
unfoldable pub handle_reconnect_status : ReconnectStatus → Text
handle_reconnect_status reconnected = codes "Connected | 재연결됨"
handle_reconnect_status reconnect_failed = codes "Disconnected | 재연결 실패"
handle_reconnect_status (attempting attempt) =
    codes "Reconnecting | 재연결 "
    ++ (format_unsigned attempt ++ (codes "/" ++ format_unsigned max_reconnect_attempts))
