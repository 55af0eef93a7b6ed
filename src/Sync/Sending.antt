-- ===== src/Sync/Sending.antt =====
-- What `SendAll` puts on a socket.
use share_note_pad.Base.{
  ℕ, zero, suc, ◌≤◌, ◌≡◌, ◌≢◌, refl, sym, ap, ◌∙◌, Bool, true, false, [], ◌∷◌, ◌++◌, append-nil,
  append_assoc, arith, length, take, drop, Bytes, if◌then◌else◌, ◌==◌, take-append-drop,
  length-drop, ℕ-cases, inl, inr,
}
use share_note_pad.Sync.Transport.{Wire, Net, stream, send_rounds, send_all}

stream-append : (s : ℕ) (w v : Wire) → stream s (w ++ v) ≡ stream s w ++ stream s v
unfolding stream
stream-append s [] v = refl
stream-append s ((t, piece) ∷ w) v =
    rw (stream-append s w v)
      (sym (append_assoc (if t == s then piece else []) (stream s w) (stream s v)))

stream-piece : (s : ℕ) (piece : Bytes) → stream s ((s, piece) ∷ []) ≡ piece
unfolding stream
stream-piece s piece = ground (arith, append-nil piece)

stream-other : (s t : ℕ) (piece : Bytes) → s ≢ t → stream t ((s, piece) ∷ []) ≡ []
unfolding stream
stream-other s t piece h = ground arith

-- What `SendAll` has put on a socket: all of the bytes if it succeeds, and the first of them, not
-- all, if it fails. Nothing goes to another socket.
pub record Sent (w : Wire) (socket : ℕ) (bytes : Bytes) (r : Wire × Bool) : Type 0 where
  pub part : Bytes
  pub rest : Bytes
  pub splits : bytes ≡ part ++ rest
  pub grows : stream socket r.0 ≡ stream socket w ++ part
  pub complete : r.1 ≡ true → rest ≡ []
  pub partial : r.1 ≡ false → rest ≢ []
  pub others : (t : ℕ) → socket ≢ t → stream t r.0 ≡ stream t w

pub Sent-complete :
    (w w' : Wire) (socket : ℕ) (bytes : Bytes)
    → Sent w socket bytes (w', true)
    → stream socket w' ≡ stream socket w ++ bytes
Sent-complete w w' socket bytes h =
    h.grows
    ∙ ap (λ t. stream socket w ++ t)
        (sym (append-nil h.part) ∙ ap (λ t. h.part ++ t) (sym (h.complete refl)) ∙ sym h.splits)

Sent-piece :
    (w : Wire) (socket : ℕ) (bytes : Bytes) (k : ℕ) (r : Wire × Bool)
    → Sent (w ++ (socket, take (suc k) bytes) ∷ []) socket (drop (suc k) bytes) r
    → Sent w socket bytes r
Sent-piece w socket bytes k r h =
    let piece = take (suc k) bytes in
    record {
      part = piece ++ h.part;
      rest = h.rest;
      splits =
          sym (take-append-drop (suc k) bytes)
          ∙ ap (λ t. piece ++ t) h.splits
          ∙ sym (append_assoc piece h.part h.rest);
      grows =
          h.grows
          ∙ rw (stream-append socket w ((socket, piece) ∷ []), stream-piece socket piece)
              (append_assoc (stream socket w) piece h.part);
      complete = h.complete;
      partial = h.partial;
      others = λ t ne.
          h.others t ne
          ∙ rw (stream-append t w ((socket, piece) ∷ []), stream-other socket t piece ne)
              (append-nil (stream t w));
    }

module _ (net : Net) where
  send_rounds-Sent :
      (rounds : ℕ) (w : Wire) (socket : ℕ) (bytes : Bytes)
      → length bytes ≤ rounds
      → Sent w socket bytes (send_rounds net rounds w socket bytes)
  unfolding send_rounds
  send_rounds-Sent rounds w socket [] h = record {
    part = [];
    rest = [];
    splits = refl;
    grows = sym (append-nil (stream socket w));
    complete = λ _. refl;
    partial = λ e. cc;
    others = λ t e. refl;
  }
  send_rounds-Sent zero w socket (b ∷ bytes) h = absurd (omega arith)
  send_rounds-Sent (suc rounds) w socket (b ∷ bytes) h =
      elim (ℕ-cases (net.send w socket (b ∷ bytes))) [
        | inl e ↦
            rw (e, send_rounds)
              (record {
                part = [];
                rest = b ∷ bytes;
                splits = refl;
                grows = sym (append-nil (stream socket w));
                complete = λ e. cc;
                partial = λ _ e. cc;
                others = λ t e. refl;
              })
        | inr (k, e) ↦
            rw (e, send_rounds)
              (Sent-piece w socket (b ∷ bytes) k _ (
                send_rounds-Sent rounds (w ++ (socket, take (suc k) (b ∷ bytes)) ∷ []) socket
                  (drop (suc k) (b ∷ bytes)) (omega (arith, length-drop (suc k) (b ∷ bytes)))))
      ]

  -- `SendAll` puts all bytes on the socket if it returns true, and a proper first part of them if it
  -- returns false, in order and once each; what other sockets have taken stays the same.
  pub send_all-Sent :
      (w : Wire) (socket : ℕ) (bytes : Bytes) → Sent w socket bytes (send_all net w socket bytes)
  unfolding send_all
  send_all-Sent w socket bytes = send_rounds-Sent (length bytes) w socket bytes (omega arith)
