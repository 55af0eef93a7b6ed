-- ===== src/Main/Agreement.antt =====
-- `MainWindow` and `WebViewWindow` share a document in the same way.
pub mod Received
pub mod Sending
pub mod Typed
use share_note_pad.Base.{
  ℕ, ◌+◌, ◌≡◌, refl, sym, ap, ◌∙◌, Bool, true, false, not, ◌&&◌, ◌||◌, Option, some, none, List, [],
  ◌∷◌, ◌++◌, append-nil, ltb, leb, ◌==◌, if◌then◌else◌, Option-cases, Bool-cases, inl, inr, Text,
  codes, text_eq, length, if_cases, arith,
}
use share_note_pad.Document.Model.{Status, apply_insert_to_content, apply_delete_to_content}
use share_note_pad.Main.Selection.{EditorSelection}
use share_note_pad.Main.Shared
use share_note_pad.Main.State.{
  MainWindow, ReconnectTarget, update_markdown_preview, take_text, show_remote_text,
}
use share_note_pad.Protocol.Message.{ProtocolMessage, get_string, get_number}
use share_note_pad.Sync.Server.{Server}
use share_note_pad.Window.Replica
use share_note_pad.Window.Replica.{
  SyncRole, Effect, saves, posts, requests_sync, sends_edit, Window, emit,
}

-- What goes to the connection; saving and showing the text are the windows' own.
unfoldable pub to_connection : List Effect → List Effect
to_connection [] = []
to_connection (saves text ∷ effects) = to_connection effects
to_connection (posts text ∷ effects) = to_connection effects
to_connection (requests_sync revision ∷ effects) = requests_sync revision ∷ to_connection effects
to_connection (sends_edit revision operation ∷ effects) =
    sends_edit revision operation ∷ to_connection effects

-- The members of the other window that say the same.
abbrev pub window_of : MainWindow → List Effect → Window
window_of x effects = record {
  sync_role = x.sync_role;
  local_client_id = x.local_client_id;
  last_known_text = x.last_known_text;
  current_revision = x.current_revision;
  sync_response_revision = x.sync_response_revision;
  sync_response_chunks = x.sync_response_chunks;
  sync_response_received = x.sync_response_received;
  effects = effects;
}

-- Both windows have the same members and have sent the same to the connection, whatever the editor
-- shows.
pub record Agrees (w : Window) (x : MainWindow) : Type 0 where
  pub members : w ≡ window_of x w.effects
  pub sent : to_connection w.effects ≡ x.sent

pub to_connection-append :
    (effects more : List Effect)
    → to_connection (effects ++ more) ≡ to_connection effects ++ to_connection more
unfolding to_connection
to_connection-append [] more = refl
to_connection-append (saves text ∷ effects) more = to_connection-append effects more
to_connection-append (posts text ∷ effects) more = to_connection-append effects more
to_connection-append (requests_sync revision ∷ effects) more =
    ap (◌∷◌ (requests_sync revision)) (to_connection-append effects more)
to_connection-append (sends_edit revision operation ∷ effects) more =
    ap (◌∷◌ (sends_edit revision operation)) (to_connection-append effects more)

-- Two conditionals with one test are related where their branches are.
pub if_both {ℓ κ} :
    {A : Type ℓ} {B : Type κ} (R : A → B → Type 0) (b : Bool) (x y : A) (x' y' : B)
    → R x x'
    → R y y'
    → R (if b then x else y) (if b then x' else y')
if_both R true x y x' y' p q = p
if_both R false x y x' y' p q = q

-- The preview is no member that the windows share.
pub preview-Agrees :
    (w : Window) (x : MainWindow) → Agrees w x → Agrees w (update_markdown_preview x)
unfolding update_markdown_preview
preview-Agrees w x a =
    if_cases (Agrees w) x.markdown_preview_visible _ x
      (λ _. record { members = a.members; sent = a.sent }) (λ _. a)

to_connection-shown :
    (text : Text) (effects : List Effect)
    → to_connection ((effects ++ saves text ∷ []) ++ posts text ∷ []) ≡ to_connection effects
unfolding to_connection
to_connection-shown text effects =
    to_connection-append (effects ++ saves text ∷ []) _
    ∙ append-nil _
    ∙ to_connection-append effects _
    ∙ append-nil _

module _ (shown : Text → Text) where
  pub full-Agrees :
      (text : Text) (revision : ℕ) (x : MainWindow) (effects : List Effect)
      → to_connection effects ≡ x.sent
      → Agrees
          (Replica.apply_full_sync_document text revision (window_of x effects))
          (Shared.apply_full_sync_document shown text revision x)
  unfolding Replica.apply_full_sync_document Shared.apply_full_sync_document take_text
      show_remote_text update_markdown_preview
  full-Agrees text revision x effects e =
      if_cases (Agrees _) x.markdown_preview_visible _ _
        (λ _. record { members = refl; sent = to_connection-shown text effects ∙ e })
        (λ _. record { members = refl; sent = to_connection-shown text effects ∙ e })

  pub request-Agrees :
      (role : SyncRole) (server : Server) (x : MainWindow) (effects : List Effect)
      → to_connection effects ≡ x.sent
      → Agrees
          (Replica.request_as role server (window_of x effects))
          (Shared.request_as shown role server x)
  unfolding Replica.request_as Shared.request_as to_connection
  request-Agrees SyncRole.offline server x effects e = record { members = refl; sent = e }
  request-Agrees SyncRole.guest server x effects e = record {
    members = refl;
    sent =
        to_connection-append effects _ ∙ ap (λ es. es ++ requests_sync x.current_revision ∷ []) e;
  }
  request-Agrees SyncRole.host server x effects e =
      full-Agrees server.document server.revision x effects e

  accept-Agrees :
      (server : Server) (x : MainWindow) (effects : List Effect) (revision : ℕ)
      (change : Status × Option Text) (selection : EditorSelection)
      → to_connection effects ≡ x.sent
      → Agrees
          (Replica.accept_change server (window_of x effects) revision change)
          (Shared.accept_change shown server x revision (Shared.change_of change selection))
  unfolding Replica.accept_change Shared.accept_change Shared.change_of Replica.request_full_sync
      Shared.request_full_sync take_text show_remote_text update_markdown_preview
  accept-Agrees server x effects revision (Status.applied, some text) selection e =
      if_cases (Agrees _) x.markdown_preview_visible _ _
        (λ _. record { members = refl; sent = to_connection-shown text effects ∙ e })
        (λ _. record { members = refl; sent = to_connection-shown text effects ∙ e })
  accept-Agrees server x effects revision _ selection e =
      request-Agrees x.sync_role server x effects e

  module _ (server : Server) (x : MainWindow) (effects : List Effect) (revision : ℕ)
      (e : to_connection effects ≡ x.sent) where
    abbrev pub SameChange : Status × Option Text → Shared.RemoteChange → Type 0
    SameChange change change' =
        Agrees (Replica.accept_change server (window_of x effects) revision change)
          (Shared.accept_change shown server x revision change')

    insert-SameChange :
        (text : Text) (position : ℕ) (inserted : Option Text)
        → SameChange
            (Replica.insert_status text position inserted)
            (Shared.insert_change text x.selection position inserted)
    unfolding Replica.insert_status Shared.insert_change Shared.change_of
    insert-SameChange text position none = accept-Agrees server x effects revision _ x.selection e
    insert-SameChange text position (some inserted) =
        accept-Agrees server x effects revision
          (apply_insert_to_content (some text) position inserted) _ e

    delete-SameChange :
        (text : Text) (position : ℕ) (count : Option ℕ)
        → SameChange
            (Replica.delete_status text position count)
            (Shared.delete_change text x.selection position count)
    unfolding Replica.delete_status Shared.delete_change Shared.change_of
    delete-SameChange text position none = accept-Agrees server x effects revision _ x.selection e
    delete-SameChange text position (some count) =
        accept-Agrees server x effects revision (apply_delete_to_content (some text) position count)
          _ e

    -- The text and the selection that an APPLY names.
    pub remote-SameChange :
        (text : Text) (position : ℕ) (operation : Text) (m : ProtocolMessage)
        → SameChange
            (Replica.remote_change text position operation m)
            (Shared.remote_edit text x.selection position operation m)
    unfolding Replica.remote_change Shared.remote_edit
    remote-SameChange text position operation m =
        if_both SameChange (text_eq operation (codes "INSERT")) _ _ _ _
          (insert-SameChange text position (get_string (codes "text") m))
          (if_both SameChange (text_eq operation (codes "DELETE")) _ _ _ _
            (delete-SameChange text position (get_number (codes "len") m))
            (accept-Agrees server x effects revision _ x.selection e))
