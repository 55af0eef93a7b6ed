-- ===== src/Window/Tests.antt =====
-- Runs of a guest's window, and its theorems at them.
use share_note_pad.Base.{
  ℕ, ◌++◌, length-replicate, Text, length, inl, replicate, ◌≡◌, ◌≢◌, refl, [], ◌∷◌, codes, text_eq,
  ne_of_text_eq, arith,
}
use share_note_pad.Sync.Server.{operation_request, Server, chunk_count_of}
use share_note_pad.Sync.Tests.{joined_client, slow_net, room, host_insert}
use share_note_pad.Window.Convergence.{Follows, run_edits, receive_applies, receive_applies-Follows}
use share_note_pad.Window.Chunks.{sync_messages}
use share_note_pad.Window.Reassembly.{Shows, receive_responses, receive_responses-Shows}
use share_note_pad.Window.Concurrency.{handle_editor_changed-concurrent}
use share_note_pad.Sync.Client.{insert_request}
use share_note_pad.Window.Editor.{handle_editor_changed}
use share_note_pad.Window.Refusal.{handle_editor_changed-refused}
use share_note_pad.Window.Typing.{handle_editor_changed-host}
use share_note_pad.Protocol.Tests.{ascii_api}
use share_note_pad.Document.Diff.{
  insert_text, compute_editor_diff, diff_operations, scan_prefix, scan_suffix, range_operations,
  same_unit,
}
use share_note_pad.Window.Replica.{saves, posts, host, Window, guest}

abbrev pub guest_window : Window
guest_window = record {
  sync_role = guest;
  local_client_id = codes "B";
  last_known_text = codes "ab";
  current_revision = 3;
  sync_response_revision = 0;
  sync_response_chunks = [];
  sync_response_received = [];
  effects = [];
}

guest-Follows : Follows room guest_window
guest-Follows = record { text = refl; revision = refl }

not_guest : codes "A" ≢ codes "B"
unfolding text_eq
not_guest = ne_of_text_eq (codes "A") (codes "B") refl

not_nine : guest_window.sync_response_revision ≢ 9
not_nine = λ e. omega (arith, e)

receive_applies-Follows_example :
    let (last, applies) = run_edits room (host_insert ∷ host_insert ∷ []) in
    Follows last (receive_applies room guest_window applies)
receive_applies-Follows_example =
    receive_applies-Follows room room guest_window (host_insert ∷ host_insert ∷ []) guest-Follows
      (not_guest, (not_guest, tt)) (omega arith)

abbrev two_chunks : Text
two_chunks = replicate 10000 b'x'

-- A document of two chunks reaches the guest.
receive_responses-Shows_example : Shows two_chunks 9 [] (
    receive_responses guest_window (
      sync_messages
        (codes "482913")
        two_chunks
        9
        (chunk_count_of (length two_chunks))
        (chunk_count_of (length two_chunks))
        0))
receive_responses-Shows_example =
    receive_responses-Shows (codes "482913") two_chunks 9 guest_window (inl not_nine)

-- The host of the room, in step with it.
abbrev pub host_window : Window
host_window = record guest_window { sync_role = host; local_client_id = codes "A" }

handle_editor_changed-host_example :
    let (s', w') = handle_editor_changed ascii_api slow_net room host_window (codes "aXYb") in
    (s'.document ≡ codes "aXYb")
    × (w'.last_known_text ≡ s'.document)
    × (w'.current_revision ≡ s'.revision)
unfolding compute_editor_diff diff_operations scan_prefix scan_suffix range_operations same_unit
    text_eq
handle_editor_changed-host_example =
    handle_editor_changed-host ascii_api slow_net room host_window (codes "aXYb") refl refl refl
      refl (omega arith) (omega arith, tt)

abbrev empty_room : Server
empty_room = record room { document = [] }

abbrev empty_window : Window
empty_window = record host_window { last_known_text = [] }

abbrev large_paste : Text
large_paste = replicate 40000 b'x'

handle_editor_changed-refused_example :
    let (s', w') = handle_editor_changed ascii_api slow_net empty_room empty_window large_paste in
    (s'.document ≡ [])
    × (w'.last_known_text ≡ large_paste)
    × (w'.effects
        ≡ ((empty_window.effects ++ saves [] ∷ []) ++ posts [] ∷ []) ++ saves large_paste ∷ [])
handle_editor_changed-refused_example =
    let size = length-replicate {A = ℕ} 40000 b'x' in
    handle_editor_changed-refused ascii_api slow_net empty_room empty_window large_paste refl refl
      refl (omega (arith, size)) (omega (arith, size))

abbrev empty_guest : Window
empty_guest = record guest_window { last_known_text = [] }

handle_editor_changed-concurrent_example :
    let w' = (handle_editor_changed ascii_api slow_net empty_room empty_guest (codes "g")).1 in
    let host_edit = operation_request empty_room (insert_text 0 (codes "h")) (codes "A") in
    let own_edit = insert_request joined_client 3 0 (codes "g") in
    let (last, applies) = run_edits empty_room (host_edit ∷ own_edit ∷ []) in
    let w'' = receive_applies empty_room w' applies in
    (last.document ≡ codes "gh")
    × (w''.last_known_text ≡ codes "hg")
    × (w''.current_revision ≡ last.revision)
handle_editor_changed-concurrent_example =
    handle_editor_changed-concurrent ascii_api slow_net empty_room empty_room empty_guest
      joined_client (codes "h") b'g' [] refl refl refl refl refl refl refl (λ e. cc) (omega arith)
      (omega arith) (omega arith) (omega arith)
