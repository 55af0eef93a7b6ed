-- ===== src/Main/Steady/Sharing.antt =====
-- The shared document keeps the window steady.
use share_note_pad.Base.{
  ℕ, zero, suc, ◌+◌, ◌≡◌, refl, sym, ap, ◌∙◌, true, false, not, ◌||◌, Option, some, none, List, [],
  ◌∷◌, length, set, replicate, length-replicate, Text, codes, text_eq, arith, leb, ltb, ◌==◌,
  if_cases,
}
use share_note_pad.Main.Editor.{start_reconnect_loop, disconnected_as, handle_sync_event}
use share_note_pad.Main.Selection.{EditorSelection}
use share_note_pad.Main.Shared.{
  RemoteChange, changes, refuses, open_response, drop_response, store_chunk,
  apply_full_sync_document, request_as, request_full_sync, accept_change, apply_change,
  apply_sync_apply, finish_response, take_chunk, apply_sync_response,
}
use share_note_pad.Main.State.{MainWindow, take_text, show_remote_text}
use share_note_pad.Main.Steady.{Steady, take_text-Steady}
use share_note_pad.Protocol.Message.{ProtocolMessage, get_string, get_number}
use share_note_pad.Sync.Server.{
  Server, SyncEvent, SyncEventType, apply_event, sync_response_event, error_event,
  disconnected_event,
}
use share_note_pad.Window.Replica.{
  SyncRole, offline, host, guest, all_received, merge_chunks, or_else,
}

length-set {ℓ} : {A : Type ℓ} (xs : List A) (i : ℕ) (v : A) → length (set xs i v) ≡ length xs
length-set [] i v = refl
length-set (x ∷ xs) zero v = refl
length-set (x ∷ xs) (suc i) v = ap suc (length-set xs i v)

module _ (shown : Text → Text) where
  -- A text of the other side at a revision.
  remote-Steady :
      (text : Text) (revision : ℕ) (selection : EditorSelection) (x : MainWindow)
      → Steady x
      → Steady (
          take_text text
            (record (show_remote_text shown text selection x) { current_revision = revision }))
  unfolding show_remote_text
  remote-Steady text revision selection x v =
      let remote : MainWindow = record (show_remote_text shown text selection x) {
        current_revision = revision;
      } in
      take_text-Steady text remote (ground arith)

  pub request-Steady :
      (role : SyncRole) (server : Server) (x : MainWindow)
      → Steady x
      → Steady (request_as shown role server x)
  unfolding request_as apply_full_sync_document
  request-Steady offline server x v = v
  request-Steady guest server x v = ground arith
  request-Steady host server x v = remote-Steady server.document server.revision _ x v

  accept-Steady :
      (server : Server) (x : MainWindow) (revision : ℕ) (change : RemoteChange)
      → Steady x
      → Steady (accept_change shown server x revision change)
  unfolding accept_change request_full_sync
  accept-Steady server x revision refuses v = request-Steady x.sync_role server x v
  accept-Steady server x revision (changes text selection) v = remote-Steady text revision _ x v

  change-Steady :
      (server : Server) (x : MainWindow) (m : ProtocolMessage) (revision position : ℕ)
      (operation : Text)
      → Steady x
      → Steady (apply_change shown server x m revision position operation)
  unfolding apply_change request_full_sync
  change-Steady server x m revision position operation v =
      if_cases Steady (leb revision x.current_revision) _ _ (λ _. v)
        (λ _.
          if_cases Steady (text_eq m.client x.local_client_id) _ _ (λ _. ground arith)
            (λ _.
              if_cases Steady (not (revision == x.current_revision + 1)) _ _
                (λ _. request-Steady x.sync_role server x v)
                (λ _. accept-Steady server x revision _ v)))

  apply-Steady :
      (server : Server) (x : MainWindow) (m : ProtocolMessage)
      → Steady x
      → Steady (apply_sync_apply shown server x m)
  unfolding apply_sync_apply
  apply-Steady server x m v =
      by_fields (get_number (codes "rev") m) (get_number (codes "pos") m)
        (get_string (codes "op") m)
    where
      by_fields :
          (rev pos : Option ℕ) (op : Option Text)
          → Steady (elim rev [
            | none ↦ x
            | some revision ↦ elim pos [
              | none ↦ x
              | some position ↦ elim op [
                | none ↦ x
                | some operation ↦ apply_change shown server x m revision position operation
              ]
            ]
          ])
      by_fields none pos op = v
      by_fields (some revision) none op = v
      by_fields (some revision) (some position) none = v
      by_fields (some revision) (some position) (some operation) =
          change-Steady server x m revision position operation v

  open-Steady :
      (revision count : ℕ) (x : MainWindow) → Steady x → Steady (open_response revision count x)
  unfolding open_response
  open-Steady revision count x v =
      let same : length (replicate count (let t : Text = [] in t))
          ≡ length (replicate count false) =
        length-replicate count _ ∙ sym (length-replicate count false) in
      if_cases Steady
        (not (x.sync_response_revision == revision) || not (length x.sync_response_chunks == count))
        _ _ (λ _. ground arith) (λ _. v)

  store-Steady :
      (index : ℕ) (text : Text) (x : MainWindow) → Steady x → Steady (store_chunk index text x)
  unfolding store_chunk
  store-Steady index text x v = ground (
    arith,
    length-set x.sync_response_chunks index text,
    length-set x.sync_response_received index true,
  )

  finish-Steady :
      (revision : ℕ) (x : MainWindow) → Steady x → Steady (finish_response shown revision x)
  unfolding finish_response apply_full_sync_document
  finish-Steady revision x v =
      if_cases Steady (all_received x.sync_response_received) _ _
        (λ _.
          remote-Steady (merge_chunks x.sync_response_chunks) revision _ (drop_response x)
            (ground arith))
        (λ _. v)

  take_chunk-Steady :
      (text : Text) (revision index count : ℕ) (x : MainWindow)
      → Steady x
      → Steady (take_chunk shown text revision index count x)
  unfolding take_chunk apply_full_sync_document
  take_chunk-Steady text revision index count x v =
      if_cases Steady (count == 0 || leb count index) _ _ (λ _. v)
        (λ _.
          if_cases Steady (ltb 1 count) _ _
            (λ _.
              finish-Steady revision _ (store-Steady index text _ (open-Steady revision count x v)))
            (λ _. remote-Steady text revision _ (drop_response x) (ground arith)))

  response-Steady :
      (x : MainWindow) (m : ProtocolMessage) → Steady x → Steady (apply_sync_response shown x m)
  unfolding apply_sync_response
  response-Steady x m v =
      by_fields (get_string (codes "text") m) (get_number (codes "rev") m)
        (or_else 0 (get_number (codes "chunk_index") m))
        (or_else 1 (get_number (codes "chunk_count") m))
    where
      by_fields :
          (text : Option Text) (rev : Option ℕ) (index count : ℕ)
          → Steady (elim text [
            | none ↦ x
            | some t ↦ elim rev [ none ↦ x | some r ↦ take_chunk shown t r index count x ]
          ])
      by_fields none rev index count = v
      by_fields (some t) none index count = v
      by_fields (some t) (some r) index count = take_chunk-Steady t r index count x v

  pub handle_sync_event-Steady :
      (server : Server) (x : MainWindow) (event : SyncEvent)
      → Steady x
      → Steady (handle_sync_event shown server x event)
  unfolding handle_sync_event disconnected_as start_reconnect_loop
  handle_sync_event-Steady server x event v = by_type event.type
    where
      disconnected : (role : SyncRole) → Steady (disconnected_as role x)
      disconnected guest = ground arith
      disconnected _ = v

      by_type :
          (type : SyncEventType)
          → Steady (elim type [
            | apply_event ↦ apply_sync_apply shown server x event.message
            | sync_response_event ↦ apply_sync_response shown x event.message
            | error_event ↦ x
            | disconnected_event ↦ disconnected_as x.sync_role x
          ])
      by_type apply_event = apply-Steady server x event.message v
      by_type sync_response_event = response-Steady x event.message v
      by_type error_event = v
      by_type disconnected_event = disconnected x.sync_role
