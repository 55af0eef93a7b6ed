-- ===== src/Main/Agreement/Received.antt =====
-- `MainWindow` and `WebViewWindow` handle what comes from the connection in the same way.
use mathlib.Core.Path.{subst}
use share_note_pad.Base.{
  ℕ, ◌+◌, ◌≡◌, refl, sym, not, ◌||◌, Option, some, none, List, [], ◌∷◌, leb, ltb, ◌==◌, Text, codes,
  text_eq, length, if_cases,
}
use share_note_pad.Main.Agreement.{
  Agrees, window_of, if_both, full-Agrees, request-Agrees, remote-SameChange,
}
use share_note_pad.Main.Editor as Typing
use share_note_pad.Main.Shared
use share_note_pad.Main.State.{MainWindow}
use share_note_pad.Protocol.Codec.{is_empty}
use share_note_pad.Protocol.Message.{ProtocolMessage, get_string, get_number}
use share_note_pad.Sync.Server.{
  Server, SyncEvent, SyncEventType, apply_event, sync_response_event, error_event,
  disconnected_event,
}
use share_note_pad.Window.Editor as Page
use share_note_pad.Window.Replica
use share_note_pad.Window.Replica.{SyncRole, Window, Effect}

-- A loop that connects again changes no member that the windows share.
start-Agrees : (w : Window) (x : MainWindow) → Agrees w x → Agrees w (Typing.start_reconnect_loop x)
unfolding Typing.start_reconnect_loop
start-Agrees w x a =
    if_cases (Agrees w)
      (not (Typing.is_guest x.sync_role) || (is_empty x.reconnect.host || x.reconnect.port == 0)) _
      _ (λ _. a)
      (λ _.
        if_cases (Agrees w) x.reconnecting _ _ (λ _. a)
          (λ _. record { members = a.members; sent = a.sent }))

disconnected-Agrees :
    (role : SyncRole) (w : Window) (x : MainWindow)
    → Agrees w x
    → Agrees w (Typing.disconnected_as role x)
unfolding Typing.disconnected_as
disconnected-Agrees SyncRole.guest w x a = start-Agrees w x a
disconnected-Agrees _ w x a = a

module _ (shown : Text → Text) where
  change-Agrees :
      (server : Server) (x : MainWindow) (effects : List Effect) (m : ProtocolMessage)
      (revision position : ℕ) (operation : Text)
      → x.editor_text ≡ x.last_known_text
      → Agrees (window_of x effects) x
      → Agrees
          (Replica.apply_change server (window_of x effects) m revision position operation)
          (Shared.apply_change shown server x m revision position operation)
  unfolding Replica.apply_change Shared.apply_change Replica.request_full_sync
      Shared.request_full_sync
  change-Agrees server x effects m revision position operation shows a =
      if_both Agrees (leb revision x.current_revision) _ _ _ _ a (
        if_both Agrees (text_eq m.client x.local_client_id) _ _ _ _
          (record { members = refl; sent = a.sent })
          (if_both Agrees (not (revision == x.current_revision + 1)) _ _ _ _
            (request-Agrees shown x.sync_role server x effects a.sent)
            (subst
              (λ t.
                Agrees
                  (Replica.accept_change server (window_of x effects) revision
                    (Replica.remote_change x.last_known_text position operation m))
                  (Shared.accept_change shown server x revision
                    (Shared.remote_edit t x.selection position operation m)))
              (sym shows)
              (remote-SameChange shown server x effects revision a.sent x.last_known_text position
                operation m))))

  -- Windows that agree agree after an APPLY.
  apply-Agrees :
      (server : Server) (x : MainWindow) (effects : List Effect) (m : ProtocolMessage)
      → x.editor_text ≡ x.last_known_text
      → Agrees (window_of x effects) x
      → Agrees
          (Replica.apply_sync_apply server (window_of x effects) m)
          (Shared.apply_sync_apply shown server x m)
  unfolding Replica.apply_sync_apply Shared.apply_sync_apply
  apply-Agrees server x effects m shows a =
      by_fields (get_number (codes "rev") m) (get_number (codes "pos") m)
        (get_string (codes "op") m)
    where
      by_fields :
          (rev pos : Option ℕ) (op : Option Text)
          → Agrees
              (elim rev [
                | none ↦ window_of x effects
                | some revision ↦ elim pos [
                  | none ↦ window_of x effects
                  | some position ↦ elim op [
                    | none ↦ window_of x effects
                    | some operation ↦
                        Replica.apply_change server
                          (window_of x effects)
                          m
                          revision
                          position
                          operation
                  ]
                ]
              ])
              (elim rev [
                | none ↦ x
                | some revision ↦ elim pos [
                  | none ↦ x
                  | some position ↦ elim op [
                    | none ↦ x
                    | some operation ↦
                        Shared.apply_change shown server x m revision position operation
                  ]
                ]
              ])
      by_fields none pos op = a
      by_fields (some revision) none op = a
      by_fields (some revision) (some position) none = a
      by_fields (some revision) (some position) (some operation) =
          change-Agrees server x effects m revision position operation shows a

  -- A step of both windows that keeps agreement from windows with the same members keeps it from all.
  from_members :
      (step : Window → Window) (step' : MainWindow → MainWindow) (x : MainWindow)
      → ((effects : List Effect)
          → Agrees (window_of x effects) x
          → Agrees (step (window_of x effects)) (step' x))
      → (w : Window) → Agrees w x
      → Agrees (step w) (step' x)
  from_members step step' x keep w a =
      subst (λ v. Agrees (step v) (step' x)) (sym a.members)
        (keep w.effects (record { members = refl; sent = a.sent }))

  open-Agrees :
      (revision count : ℕ) (x : MainWindow) (effects : List Effect)
      → Agrees (window_of x effects) x
      → Agrees
          (Replica.open_response revision count (window_of x effects))
          (Shared.open_response revision count x)
  unfolding Replica.open_response Shared.open_response
  open-Agrees revision count x effects a =
      if_both Agrees
        (not (x.sync_response_revision == revision) || not (length x.sync_response_chunks == count))
        _ _ _ _ (record { members = refl; sent = a.sent }) a

  store-Agrees :
      (index revision : ℕ) (text : Text) (x : MainWindow) (effects : List Effect)
      → Agrees (window_of x effects) x
      → Agrees
          (Replica.finish_response revision (Replica.store_chunk index text (window_of x effects)))
          (Shared.finish_response shown revision (Shared.store_chunk index text x))
  unfolding Replica.finish_response Shared.finish_response Replica.store_chunk Shared.store_chunk
  store-Agrees index revision text x effects a =
      let stored = Shared.store_chunk index text x in
      if_both Agrees (Replica.all_received stored.sync_response_received) _ _ _ _
        (full-Agrees shown (Replica.merge_chunks stored.sync_response_chunks) revision
          (Shared.drop_response stored) effects a.sent)
        (record { members = refl; sent = a.sent })

  take_chunk-Agrees :
      (text : Text) (revision index count : ℕ) (x : MainWindow) (effects : List Effect)
      → Agrees (window_of x effects) x
      → Agrees
          (Replica.take_chunk text revision index count (window_of x effects))
          (Shared.take_chunk shown text revision index count x)
  unfolding Replica.take_chunk Shared.take_chunk
  take_chunk-Agrees text revision index count x effects a =
      if_both Agrees (count == 0 || leb count index) _ _ _ _ a (
        if_both Agrees (ltb 1 count) _ _ _ _
          (from_members (λ w. Replica.finish_response revision (Replica.store_chunk index text w))
            (λ y. Shared.finish_response shown revision (Shared.store_chunk index text y)) _
            (store-Agrees index revision text _) _ (open-Agrees revision count x effects a))
          (full-Agrees shown text revision (Shared.drop_response x) effects a.sent))

  response-Agrees :
      (x : MainWindow) (effects : List Effect) (m : ProtocolMessage)
      → Agrees (window_of x effects) x
      → Agrees
          (Replica.apply_sync_response (window_of x effects) m)
          (Shared.apply_sync_response shown x m)
  unfolding Replica.apply_sync_response Shared.apply_sync_response
  response-Agrees x effects m a =
      by_fields (get_string (codes "text") m) (get_number (codes "rev") m)
        (Replica.or_else 0 (get_number (codes "chunk_index") m))
        (Replica.or_else 1 (get_number (codes "chunk_count") m))
    where
      by_fields :
          (text : Option Text) (rev : Option ℕ) (index count : ℕ)
          → Agrees
              (elim text [
                | none ↦ window_of x effects
                | some t ↦ elim rev [
                  | none ↦ window_of x effects
                  | some r ↦ Replica.take_chunk t r index count (window_of x effects)
                ]
              ])
              (elim text [
                | none ↦ x
                | some t ↦ elim rev [
                  | none ↦ x
                  | some r ↦ Shared.take_chunk shown t r index count x
                ]
              ])
      by_fields none rev index count = a
      by_fields (some t) none index count = a
      by_fields (some t) (some r) index count = take_chunk-Agrees t r index count x effects a

  event-Agrees :
      (server : Server) (event : SyncEvent) (x : MainWindow) (effects : List Effect)
      → x.editor_text ≡ x.last_known_text
      → Agrees (window_of x effects) x
      → Agrees
          (Page.handle_sync_event server (window_of x effects) event)
          (Typing.handle_sync_event shown server x event)
  unfolding Page.handle_sync_event Typing.handle_sync_event
  event-Agrees server event x effects shows a = by_type event.type
    where
      by_type :
          (type : SyncEventType)
          → Agrees
              (elim type [
                | apply_event ↦ Replica.apply_sync_apply server (window_of x effects) event.message
                | sync_response_event ↦
                    Replica.apply_sync_response (window_of x effects) event.message
                | error_event ↦ window_of x effects
                | disconnected_event ↦ window_of x effects
              ])
              (elim type [
                | apply_event ↦ Shared.apply_sync_apply shown server x event.message
                | sync_response_event ↦ Shared.apply_sync_response shown x event.message
                | error_event ↦ x
                | disconnected_event ↦ Typing.disconnected_as x.sync_role x
              ])
      by_type apply_event = apply-Agrees server x effects event.message shows a
      by_type sync_response_event = response-Agrees x effects event.message a
      by_type error_event = a
      by_type disconnected_event = disconnected-Agrees x.sync_role _ x a

  -- Before every event the editor shows the text that the window knows. The editor control may change
  -- a text that it is set to, such as its line breaks.
  abbrev pub AllShow : Server → MainWindow → List SyncEvent → Type 0
  AllShow server x [] = Unit
  AllShow server x (event ∷ events) =
      (x.editor_text ≡ x.last_known_text)
      × AllShow server (Typing.handle_sync_event shown server x event) events

  -- The two windows are the same replica: if they have the same members and have sent the same
  -- requests, this still holds after any sequence of events from the connection, whatever the messages
  -- are and in whatever order they come, as long as before every event the editor of `MainWindow`
  -- shows the text that the window knows.
  pub handle_sync_events-Agrees :
      (server : Server) (events : List SyncEvent) (w : Window) (x : MainWindow)
      → Agrees w x
      → AllShow server x events
      → Agrees
          (Page.handle_sync_events server w events)
          (Typing.handle_sync_events shown server x events)
  unfolding Page.handle_sync_events Typing.handle_sync_events
  handle_sync_events-Agrees server [] w x a shows = a
  handle_sync_events-Agrees server (event ∷ events) w x a (shows, later) =
      handle_sync_events-Agrees server events _ _
        (from_members (λ v. Page.handle_sync_event server v event)
          (λ y. Typing.handle_sync_event shown server y event) x
          (λ effects. event-Agrees server event x effects shows) w a)
        later
