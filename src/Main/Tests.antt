-- ===== src/Main/Tests.antt =====
-- Runs of `MainWindow`, and its theorems at them.
use share_note_pad.Base.{
  ◌*◌, ◌≤◌, ◌≡◌, refl, Bool, true, false, List, [], ◌∷◌, ◌++◌, length, get_elem?, Text, codes,
  text_eq, text_lt, ◌==◌, if◌then◌else◌, arith,
}
use share_note_pad.Document.Model.{apply_insert_to_content, insert_at, erase_at}
use share_note_pad.Main.Agreement.{Agrees, to_connection}
use share_note_pad.Main.Agreement.Received.{handle_sync_events-Agrees}
use share_note_pad.Main.Agreement.Sending.{BothShare}
use share_note_pad.Main.Agreement.Typed.{process_editor_change-BothShare}
use share_note_pad.Main.Editor as Typing
use share_note_pad.Main.Messages.{generate_session_code}
use share_note_pad.Main.Preview.{
  find, heading_level, link_at, render_from, render_text_line, strip_from, starts_with,
  strip_inline_markdown, strip_step, cut_line, render_line, trim_left, render_markdown_preview,
}
use share_note_pad.Main.Preview.Inline.{strip_inline_markdown_rounds}
use share_note_pad.Main.Preview.Lines.{with_breaks, render_markdown_preview-code}
use share_note_pad.Main.Reconnect.{Attempts, max_reconnect_attempts, reconnect_loop, delay_ms}
use share_note_pad.Main.Reconnect.Trying.{Told, reconnect_loop-Told}
use share_note_pad.Main.Selection.{
  EditorSelection, adjust_selection_for_insert, adjust_selection_for_delete,
}
use share_note_pad.Main.Selection.Caret.{SameEnds, kept_selection, adjust_selection-SameEnds}
use share_note_pad.Main.Shared.{apply_sync_apply, remote_edit}
use share_note_pad.Main.State.{MainWindow, fresh_window, show_remote_text, take_text}
use share_note_pad.Main.Steady.{Steady}
use share_note_pad.Main.Steady.Reach.{none_yet, and_then, opens_tab, switches, opened, Steps-Steady}
use share_note_pad.Main.Tabs.{
  switch_to_tab, handle_new_tab, save_editor_content, handle_autosave_timer, tab_title_text,
  short_title, max_title_chars,
}
use share_note_pad.Main.Tabs.Saving.{Saved, save_editor_content-Saved, handle_new_tab-unsaved}
use share_note_pad.Main.Tabs.Switching.{Holds, switch_to_tab-back}
use share_note_pad.Protocol.Fields.{insert, lookup}
use share_note_pad.Protocol.Json.{format_unsigned}
use share_note_pad.Protocol.Message.{get_number, get_string, set_number, set_string}
use share_note_pad.Protocol.Tests.{ascii_api}
use share_note_pad.Storage.Tests.{old_note, good_disk}
use share_note_pad.Sync.Client.{no_socket}
use share_note_pad.Sync.Receive.{timeout}
use share_note_pad.Sync.Server.{SyncEvent, apply_event, disconnected_event, apply_message}
use share_note_pad.Sync.Tests.{joined_client, slow_net, room, host_insert}
use share_note_pad.Window.Editor as Page
use share_note_pad.Window.Replica.{host, guest}
use share_note_pad.Window.Tests.{guest_window, host_window}

-- A rich edit control ends at a zero, and gives every line break back as `\r\n`.
rich_from : Bool → Text → Text
rich_from after_return [] = []
rich_from after_return (c ∷ text) =
    let rest = rich_from (c == 13) text in
    if c == 0
    then []
    else if c == 13
    then 13 ∷ 10 ∷ rest
    else if c == 10
    then (if after_return then rest else 13 ∷ 10 ∷ rest)
    else c ∷ rest

abbrev rich_text : Text → Text
rich_text text = rich_from false text

line_break_changed : rich_text (codes "a\nb") ≡ codes "a\r\nb"
unfolding rich_from
line_break_changed = refl

abbrev main_guest : MainWindow
main_guest = record fresh_window {
  sync_role = guest;
  local_client_id = codes "B";
  editor_text = codes "ab";
  last_known_text = codes "ab";
  current_revision = 3;
}

-- The APPLY of an insertion, and the loss of the connection.
abbrev events : List SyncEvent
events =
    (record {
      type = apply_event;
      message = apply_message (codes "482913") 4 1 host_insert;
      detail = [];
    })
    ∷ (record { type = disconnected_event; message = host_insert; detail = [] })
    ∷ []

handle_sync_events-Agrees_example :
    Agrees
      (Page.handle_sync_events room guest_window events)
      (Typing.handle_sync_events rich_text room main_guest events)
unfolding to_connection Typing.handle_sync_event apply_sync_apply get_number lookup apply_message
    set_string text_eq set_number insert text_lt get_string remote_edit apply_insert_to_content
    take_text show_remote_text rich_from
handle_sync_events-Agrees_example =
    handle_sync_events-Agrees rich_text room events guest_window main_guest
      (record { members = refl; sent = refl }) (refl, (refl, tt))

-- The known text has a line break, of which the control makes two units: the insertion behind the
-- line break gets between them.
abbrev before_break : MainWindow
before_break = record main_guest {
  editor_text = rich_text (codes "\nab");
  last_known_text = codes "\nab";
}

break_split :
    (apply_sync_apply rich_text room before_break
      (apply_message (codes "482913") 4 1 host_insert)).last_known_text
    ≡ codes "\rX\nab"
unfolding apply_sync_apply get_number lookup apply_message set_string text_eq set_number insert
    text_lt get_string remote_edit apply_insert_to_content take_text show_remote_text rich_from
break_split = refl

-- The host has typed.
abbrev main_host : MainWindow
main_host = record main_guest {
  sync_role = host;
  local_client_id = codes "A";
  editor_text = codes "aXYb";
}

process_editor_change-BothShare_example :
    BothShare
      (Page.handle_editor_changed ascii_api slow_net room host_window (codes "aXYb"))
      (Typing.process_editor_change ascii_api slow_net rich_text room main_host)
unfolding to_connection
process_editor_change-BothShare_example =
    process_editor_change-BothShare ascii_api slow_net rich_text room host_window main_host
      (record { members = refl; sent = refl })

-- A tab is opened, and the user goes back to the first one.
Steps-Steady_example : Steady (
    switch_to_tab rich_text 0
      (handle_new_tab rich_text (opened ascii_api slow_net rich_text good_disk old_note)))
Steps-Steady_example =
    Steps-Steady ascii_api slow_net rich_text good_disk old_note
      (switch_to_tab rich_text 0
        (handle_new_tab rich_text (opened ascii_api slow_net rich_text good_disk old_note)))
      (and_then (and_then none_yet opens_tab) (switches 0))

-- Two tabs, the first one changed.
abbrev two_tabs : MainWindow
two_tabs = record fresh_window {
  editor_text = codes "typed";
  last_known_text = codes "typed";
  dirty = true;
  tabs =
      (record { title = codes "current.txt"; content = codes "old"; dirty = false })
      ∷ (record { title = codes "new"; content = codes "other"; dirty = false })
      ∷ [];
}

title_of_second : tab_title_text 190 two_tabs.tabs 1 ≡ codes " new"
unfolding tab_title_text short_title max_title_chars
title_of_second = refl

switch_to_tab-back_example :
    let y = switch_to_tab rich_text 0 (switch_to_tab rich_text 1 two_tabs) in
    (y.editor_text ≡ rich_text (codes "typed"))
    × (y.last_known_text ≡ codes "typed")
    × (y.dirty ≡ true)
    × (y.active_tab_index ≡ 0)
switch_to_tab-back_example =
    switch_to_tab-back rich_text two_tabs 1 refl (omega arith) (omega arith) (λ e. omega (arith, e))

handle_new_tab-unsaved_example :
    let y : MainWindow = record (handle_new_tab rich_text two_tabs) {
      editor_text = codes "more";
      dirty = true;
    } in
    (((save_editor_content ascii_api good_disk old_note y).0 ≡ old_note)
      × ((handle_autosave_timer ascii_api good_disk old_note y).0 ≡ old_note))
    × Holds (codes "typed") true (get_elem? y.tabs 0)
handle_new_tab-unsaved_example =
    handle_new_tab-unsaved rich_text ascii_api good_disk old_note two_tabs (codes "more") true refl
      refl (omega arith) (omega arith)

save_editor_content-Saved_example :
    Saved ascii_api good_disk old_note two_tabs
      (save_editor_content ascii_api good_disk old_note two_tabs)
save_editor_content-Saved_example =
    save_editor_content-Saved ascii_api good_disk old_note two_tabs refl refl

abbrev caret : EditorSelection
caret = record { first = 2; last = 4 }

adjust_selection-SameEnds_example :
    SameEnds
      (codes "abcdef")
      (insert_at 1 (codes "XY") (codes "abcdef"))
      caret
      (adjust_selection_for_insert caret 1 2)
    × SameEnds
        (codes "abcdef")
        (erase_at 1 2 (codes "abcdef"))
        (kept_selection 1 2 caret)
        (adjust_selection_for_delete caret 1 2)
adjust_selection-SameEnds_example =
    adjust_selection-SameEnds (codes "abcdef") (codes "XY") 1 2 caret (omega arith) (omega arith)
      (omega arith) (omega arith)

link_shown :
    strip_inline_markdown (codes "see **[docs](a.md)** `now`") ≡ codes "see docs (a.md) now"
unfolding strip_inline_markdown strip_from strip_step link_at find text_eq
link_shown = refl

strip_inline_markdown_rounds_example :
    (strip_inline_markdown (codes "**b") ≡ strip_inline_markdown (codes "b"))
    × (1 ≤ 2)
    × (length (strip_inline_markdown (codes "**b")) ≤ 3)
unfolding strip_step starts_with text_eq
strip_inline_markdown_rounds_example = strip_inline_markdown_rounds b'*' (codes "*b")

heading_shown :
    render_markdown_preview (codes "## *T*\n- [x] done")
    ≡ codes "T\r\n================\r\n[x] done\r\n"
unfolding render_markdown_preview render_from render_line render_text_line cut_line heading_level
    starts_with trim_left strip_inline_markdown strip_from strip_step text_eq
heading_shown = refl

render_markdown_preview-code_example :
    render_markdown_preview (codes "```c\r\n*x = 1;\r\n```\r\n*y*")
    ≡ codes "[code]\r\n"
      ++ (codes "*x = 1;\r\n" ++ (codes "[/code]\r\n" ++ render_markdown_preview (codes "*y*")))
unfolding with_breaks starts_with trim_left text_eq
render_markdown_preview-code_example =
    render_markdown_preview-code (codes "```c") (codes "```") (codes "*y*") (codes "*x = 1;" ∷ [])
      (refl, (refl, (refl, (refl, tt)))) refl
      ((refl, (refl, (refl, (refl, (refl, (refl, (refl, tt))))))), refl, tt)
      (refl, (refl, (refl, tt))) refl

-- Nobody answers.
abbrev no_answers : Attempts
no_answers = record {
  opening = λ attempt. no_socket;
  now = λ attempt. 1000 * attempt;
  response = λ attempt. timeout;
}

delays :
    delay_ms 1 ∷ delay_ms 2 ∷ delay_ms 3 ∷ delay_ms 4 ∷ delay_ms 5 ∷ []
    ≡ 1000 ∷ 2000 ∷ 4000 ∷ 8000 ∷ 8000 ∷ []
unfolding delay_ms
delays = refl

reconnect_loop-Told_example :
    Told ascii_api slow_net no_answers
      (λ attempt. false)
      main_guest
      max_reconnect_attempts
      1
      joined_client
      []
      (reconnect_loop ascii_api slow_net no_answers (λ attempt. false) joined_client main_guest).0
reconnect_loop-Told_example =
    reconnect_loop-Told ascii_api slow_net no_answers (λ attempt. false) main_guest joined_client

code_filled : generate_session_code 42 ≡ codes "000042"
unfolding generate_session_code format_unsigned
code_filled = refl
