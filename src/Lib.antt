-- ===== src/Lib.antt =====
-- Verification of ShareNotePad: its synchronisation core, its windows, and what it keeps on disk.
--
-- The program is a notepad that two people on one network edit together. The host runs a server
-- that owns the document; the guest's client connects to it with a join code. An editor turns what
-- the user typed into an insertion and a deletion (`editor_diff`), the operations go to the server
-- as messages, the server applies them to its document (`document_model`), counts a revision up and
-- sends an APPLY message, and the window of the other side makes the same change to its text.
-- Messages are JSON objects in frames with a length of four bytes in front (`protocol`).
--
-- Base: shared notation, lists, texts and byte strings. A text is the list of its UTF-16 units, and
--   a byte string the list of its bytes, both as native numbers.
-- Protocol, of client/protocol.h, client/protocol.cpp and client/text_encoding.cpp: Fields (the maps
--   of a message), Message (ProtocolMessage, MessageType), Json (strings and numbers), Codec
--   (SerializeMessage, DeserializeMessage), Frame (EncodeFrame, FrameDecoder). Strings, Numbers,
--   Progress, RoundTrip and Framing hold the proofs.
-- Document, of client/document_model.cpp and client/editor_diff.cpp: Model (ApplyInsertToContent,
--   ApplyDeleteToContent) and Diff (ComputeEditorDiff); Laws, Scan and Diffing hold the proofs.
-- Sync, of client/sync_server.h and client/sync_server.cpp: Transport (SendAll,
--   SendProtocolMessage), Receive (ReceiveProtocolMessage), Server (the members of SyncServer in
--   State, edits in Editing, messages in Sends), Session (Start, Stop, HandleClient); and, of
--   client/sync_client.cpp, Client and Connecting (ConnectWithTimeout). Log is a line of the session
--   log and the reconnect token. Edits, Deciding, Accepted, Sending, Arrival, Queue, Joining,
--   Heartbeat, Admission, Listening, Room and Reach hold the proofs; Reach has the steps of a room.
-- Window, of client/webview_window.cpp: Replica (ApplySyncApply, ApplySyncResponse, RequestFullSync,
--   SendLocalOperations), Editor (HandleCreateRoom, HandleJoinRoom, the events) and
--   Page (EscapeJson, ExtractJsonString, HasMessageType, the messages to the page), whose Dispatch is
--   HandleWebMessage and whose Reading, with the message that ui/app.js writes, holds proofs;
--   Convergence, Chunks, Reassembly, Typing, Refusal and Concurrency hold the proofs.
-- Main, of client/window.h and client/window.cpp (MainWindow, the window without a web view): State
--   (the members), Selection, Preview (RenderMarkdownPreview), Shared (ApplySyncApply,
--   ApplySyncResponse, RequestFullSync), Shortcuts, Editor (OnEditorChanged, ProcessEditorChange,
--   SendLocalOperations, the events), Tabs (the tabs, SaveEditorContent), Rooms (HandleCreateRoom,
--   HandleJoinRoom, HandleLeaveRoom), Reconnect (ReconnectLoop) and Messages. Agreement relates it to
--   Window, Steady has the messages of the system as steps and what they keep; the other children
--   hold the proofs of the module that they stand below.
-- Numbers: `std::stoul`, which the port fields, the settings and the announcements are read with.
-- Storage, of client/storage.cpp: LoadCurrent and SaveCurrent; Saving holds the proofs.
-- Discovery, of client/discovery.cpp: BuildMessage, ParseMessage and the loop of Find; Announcer
--   (DiscoveryAnnouncer, and Find with its socket), Words (the words of a stream) and, with the
--   proofs, Announcing and Hearing.
-- Config, of client/config.cpp: LoadOrCreate, LoadExisting, ApplyDefaults and Save; Lines (the lines
--   of the file and Trim) and, with the proofs, Saving and Defaults.
-- Install, of client/self_install.cpp: RunSelfInstallIfNeeded and the copying functions; Copying and
--   Running hold the proofs. A folder is one entry with all that is below it, so that a portable folder
--   inside the folder of the installation is outside the model.
--
-- State is passed on explicitly: an operation of a class takes its members as a record and returns
-- the new ones with its result. What a lock protects is one step. An out parameter is part of the
-- result, and a missing value is `none`.
--
-- Parameters are the Windows conversions between UTF-8 and UTF-16 (TextApi), for which it is
-- assumed that converting back gives the text, and the call `send` of a socket (Net), which takes
-- at most what it is given. What `recv` gives is a list of results, in the order in which they come.
-- What the editor control of MainWindow gives back for a text that it is set to is a function,
-- `shown`, of which nothing is assumed; a file is its contents, and the failures of the system are
-- arguments (Disk, ConfigDisk).
--
-- Loops: the loop over the fields of a message has the length of the text, plus one, as its fuel;
-- the loop of SendAll the number of bytes; ReceiveProtocolMessage recurses on the results of `recv`
-- that are left, as each round but the last takes one. The two loops of the preview have the length
-- of their text as fuel, as each round takes a unit; ReconnectLoop has its five attempts.
--
-- Not modelled: threads and locks (an operation under a lock is atomic), the file of
-- the logger, sockets and their options, the web view, and of MainWindow the controls, the
-- layout, the menus, the styles of rich text, the clipboard and the status line;
-- the shortcut that the self-installer makes.
pub mod Base
pub mod Protocol
pub mod Document
pub mod Sync
pub mod Window
pub mod Install
pub mod Numbers
pub mod Storage
pub mod Main
pub mod Discovery
pub mod Config
