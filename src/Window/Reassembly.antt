-- ===== src/Window/Reassembly.antt =====
-- A full synchronisation: the chunks of `SendSyncResponse` of client/sync_server.cpp, put together
-- by `ApplySyncResponse` of client/webview_window.cpp.
use share_note_pad.Base.{
  ℕ, zero, suc, ◌+◌, ◌<◌, ◌≡◌, ◌≢◌, ◌⊎◌, refl, sym, ap, ◌∙◌, true, false, List, [], ◌∷◌, ◌++◌,
  length, replicate, length-replicate, length-append, append-nil, append_assoc, Text, text_eq,
  text_lt, arith,
}
use share_note_pad.Protocol.Fields.{lookup, insert}
use share_note_pad.Protocol.Message.{
  ProtocolMessage, get_string, get_number, set_string, set_number,
}
use share_note_pad.Sync.Server.{sync_chunk, chunk_count_of}
use share_note_pad.Window.Replica.{
  Effect, Window, saves, posts, apply_full_sync_document, merge_chunks, open_response, store_chunk,
  finish_response, take_chunk, apply_sync_response,
}
use share_note_pad.Window.Chunks.{
  piece, pieces, sync_messages, merge_chunks-document, chunk_count_of-positive, all_received-false,
  all_received-true, set-append, set-append_of, replicate-snoc,
}

-- A window that handles SYNC_RESPONSE messages in order.
unfoldable pub receive_responses : Window → List ProtocolMessage → Window
receive_responses w [] = w
receive_responses w (m ∷ ms) = receive_responses (apply_sync_response w m) ms

apply_sync_response-chunk :
    (code document : Text) (revision count index : ℕ) (w : Window)
    → apply_sync_response w (sync_chunk code document revision count index)
      ≡ take_chunk (piece document index) revision index count w
unfolding apply_sync_response sync_chunk piece get_string get_number set_string set_number lookup
    insert text_eq text_lt
apply_sync_response-chunk code document revision count index w = refl

-- A window that has the first chunks of a response of `n + length done` chunks.
record Pending (revision : ℕ) (done : List Text) (n : ℕ) (w : Window) : Type 0 where
  revision_kept : w.sync_response_revision ≡ revision
  chunks : w.sync_response_chunks ≡ done ++ replicate n []
  flags : w.sync_response_received ≡ replicate (length done) true ++ replicate n false

-- What a window shows after a full synchronisation.
pub record Shows (document : Text) (revision : ℕ) (before : List Effect) (w' : Window)
    : Type 0 where
  pub text : w'.last_known_text ≡ document
  pub revision_shown : w'.current_revision ≡ revision
  pub no_chunks : w'.sync_response_chunks ≡ []
  pub no_flags : w'.sync_response_received ≡ []
  pub told : w'.effects ≡ (before ++ saves document ∷ []) ++ posts document ∷ []

module _ (code document : Text) (revision count : ℕ) where
  open_response-Pending :
      (done : List Text) (n : ℕ) (w : Window)
      → Pending revision done n w
      → length done + n ≡ count
      → open_response revision count w ≡ w
  unfolding open_response
  open_response-Pending done n w p e = ground (
    arith,
    p.revision_kept,
    ap length p.chunks,
    length-append done (replicate n []),
    length-replicate {A = Text} n [],
  )

  store_chunk-Pending :
      (done : List Text) (n : ℕ) (text : Text) (w : Window)
      → Pending revision done (suc n) w
      → Pending revision (done ++ text ∷ []) n (store_chunk (length done) text w)
  unfolding store_chunk
  store_chunk-Pending done n text w p =
      let k = length done in
      let more : length (done ++ text ∷ []) ≡ suc k =
        omega (arith, length-append done (text ∷ [])) in
      record {
        revision_kept = p.revision_kept;
        chunks = rw p.chunks (set-append done (replicate n []) [] text);
        flags =
            rw (p.flags, more)
              (set-append_of k (replicate k true) (replicate n false) false true
                  (length-replicate k true)
                ∙ sym (append_assoc (replicate k true) (true ∷ []) (replicate n false))
                ∙ ap (λ t. t ++ replicate n false) (replicate-snoc k true));
      }

  take_chunk-stores :
      (index : ℕ) (text : Text) (w : Window)
      → index < count
      → 1 < count
      → take_chunk text revision index count w
        ≡ finish_response revision (store_chunk index text (open_response revision count w))
  unfolding take_chunk
  take_chunk-stores index text w h more = ground arith

  finish_response-waits :
      (done : List Text) (n : ℕ) (w : Window)
      → Pending revision done (suc n) w
      → finish_response revision w ≡ w
  unfolding finish_response
  finish_response-waits done n w p =
      rw (p.flags, all_received-false (length done) (replicate n false)) refl

  finish_response-Shows :
      (done : List Text) (w : Window)
      → Pending revision done 0 w
      → Shows (merge_chunks done) revision w.effects (finish_response revision w)
  unfolding finish_response apply_full_sync_document
  finish_response-Shows done w p =
      rw
        (
          p.flags,
          append-nil (replicate (length done) true),
          all_received-true (length done),
          p.chunks,
          append-nil done,
        )
        (record {
          text = refl;
          revision_shown = refl;
          no_chunks = refl;
          no_flags = refl;
          told = refl;
        })

  apply_sync_response-stores :
      (n : ℕ) (done : List Text) (index : ℕ) (w : Window)
      → Pending revision done (suc n) w
      → length done ≡ index
      → index + suc n ≡ count
      → 1 < count
      → apply_sync_response w (sync_chunk code document revision count index)
        ≡ finish_response revision (store_chunk index (piece document index) w)
  apply_sync_response-stores n done index w p i e more =
      let x = piece document index in
      apply_sync_response-chunk code document revision count index w
      ∙ take_chunk-stores index x w (omega arith) more
      ∙ ap (λ v. finish_response revision (store_chunk index x v))
          (open_response-Pending done (suc n) w p (omega arith))

  -- The rest of a response of several chunks.
  receive-rest :
      (n : ℕ) (done : List Text) (index : ℕ) (w : Window)
      → Pending revision done (suc n) w
      → length done ≡ index
      → index + suc n ≡ count
      → 1 < count
      → Shows
          (merge_chunks (done ++ pieces document (suc n) index))
          revision
          w.effects
          (receive_responses w (sync_messages code document revision count (suc n) index))
  unfolding receive_responses sync_messages pieces store_chunk
  receive-rest zero done index w p i e more =
      let x = piece document index in
      let stored = rw i at (store_chunk-Pending done 0 x w p) in
      rw (apply_sync_response-stores 0 done index w p i e more)
        (finish_response-Shows (done ++ x ∷ []) (store_chunk index x w) stored)
  receive-rest (suc n) done index w p i e more =
      let x = piece document index in
      let stored = rw i at (store_chunk-Pending done (suc n) x w p) in
      let rest =
        receive-rest n (done ++ x ∷ []) (index + 1) (store_chunk index x w) stored
          (omega (arith, length-append done (x ∷ []))) (omega arith) more in
      rw
        (
          apply_sync_response-stores (suc n) done index w p i e more
              ∙ finish_response-waits (done ++ x ∷ []) n (store_chunk index x w) stored,
          receive_responses,
        )
        (rw (append_assoc done (x ∷ [])) at rest)

  open_response-opened :
      (w : Window)
      → (w.sync_response_revision ≢ revision) ⊎ (length w.sync_response_chunks ≢ count)
      → Pending revision [] count (open_response revision count w)
  unfolding open_response
  open_response-opened w other =
      let fresh : Window = record w {
        sync_response_revision = revision;
        sync_response_chunks = replicate count [];
        sync_response_received = replicate count false;
      } in
      let e : open_response revision count w ≡ fresh = ground arith in
      rw e (record { revision_kept = refl; chunks = refl; flags = refl })

  open_response-effects : (w : Window) → (open_response revision count w).effects ≡ w.effects
  unfolding open_response
  open_response-effects w = ground arith

  -- The first chunk opens the response.
  receive-opened :
      (n : ℕ) (w : Window)
      → suc n ≡ count
      → 1 < count
      → Pending revision [] count (open_response revision count w)
      → receive_responses w (sync_messages code document revision count (suc n) 0)
        ≡ receive_responses
            (open_response revision count w)
            (sync_messages code document revision count (suc n) 0)
  unfolding receive_responses sync_messages
  receive-opened n w e more p =
      let x = piece document 0 in
      let v = open_response revision count w in
      let first : apply_sync_response w (sync_chunk code document revision count 0)
          ≡ apply_sync_response v (sync_chunk code document revision count 0) =
        apply_sync_response-chunk code document revision count 0 w
        ∙ take_chunk-stores 0 x w (omega arith) more
        ∙ ap (λ u. finish_response revision (store_chunk 0 x u))
            (sym (open_response-Pending [] count v p (omega arith)))
        ∙ sym (take_chunk-stores 0 x v (omega arith) more)
        ∙ sym (apply_sync_response-chunk code document revision count 0 v) in
      ap (λ u. receive_responses u (sync_messages code document revision count n 1)) first

  receive-all :
      (n : ℕ) (w : Window)
      → suc n ≡ count
      → 1 < count
      → (w.sync_response_revision ≢ revision) ⊎ (length w.sync_response_chunks ≢ count)
      → Shows
          (merge_chunks (pieces document (suc n) 0))
          revision
          w.effects
          (receive_responses w (sync_messages code document revision count (suc n) 0))
  unfolding open_response
  receive-all n w e more other =
      let v = open_response revision count w in
      let p = open_response-opened w other in
      let all : Pending revision [] (suc n) v = record {
        revision_kept = p.revision_kept;
        chunks = p.chunks ∙ ap (λ k. replicate k []) (sym e);
        flags = p.flags ∙ ap (λ k. replicate k false) (sym e);
      } in
      let rest = receive-rest n [] 0 v all refl (omega arith) more in
      rw (receive-opened n w e more p) (rw (open_response-effects w) at rest)

receive-single :
    (code document : Text) (revision : ℕ) (w : Window)
    → Shows
        (merge_chunks (pieces document 1 0))
        revision
        w.effects
        (receive_responses w (sync_messages code document revision 1 1 0))
unfolding receive_responses sync_messages pieces merge_chunks take_chunk apply_full_sync_document
receive-single code document revision w =
    rw (apply_sync_response-chunk code document revision 1 0 w, append-nil (piece document 0))
      (record {
        text = refl;
        revision_shown = refl;
        no_chunks = refl;
        no_flags = refl;
        told = refl;
      })

receive-count :
    (code document : Text) (revision count : ℕ) (w : Window)
    → 0 < count
    → (w.sync_response_revision ≢ revision) ⊎ (length w.sync_response_chunks ≢ count)
    → Shows
        (merge_chunks (pieces document count 0))
        revision
        w.effects
        (receive_responses w (sync_messages code document revision count count 0))
receive-count code document revision zero w h other = absurd (omega arith)
receive-count code document revision (suc zero) w h other = receive-single code document revision w
receive-count code document revision (suc (suc n)) w h other =
    receive-all code document revision (suc (suc n)) (suc n) w refl (omega arith) other

-- A window that gets all messages of a full synchronisation in order shows the document of the
-- server at its revision, has saved and posted it once, and has no chunk left. Chunks that it had
-- before must be of another response, with another revision or another number of chunks.
pub receive_responses-Shows :
    (code document : Text) (revision : ℕ) (w : Window)
    → let count = chunk_count_of (length document) in
      ((w.sync_response_revision ≢ revision) ⊎ (length w.sync_response_chunks ≢ count))
      → Shows document revision w.effects
          (receive_responses w (sync_messages code document revision count count 0))
receive_responses-Shows code document revision w other =
    let count = chunk_count_of (length document) in
    rw (merge_chunks-document document) at (
      receive-count code document revision count w (chunk_count_of-positive (length document))
        other)
