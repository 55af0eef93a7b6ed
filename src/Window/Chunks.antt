-- ===== src/Window/Chunks.antt =====
-- The chunks that `SendSyncResponse` of client/sync_server.cpp cuts the document into.
use share_note_pad.Base.{
  ℕ, zero, suc, ◌+◌, ◌-◌, ◌*◌, ◌<◌, ◌≤◌, ◌≡◌, refl, sym, ap, ◌∙◌, min, Bool, true, false, List, [],
  ◌∷◌, ◌++◌, length, take, drop, set, replicate, length-drop, drop-drop, drop-all, take-append-drop,
  append-nil, append_assoc, Text, arith,
}
use share_note_pad.Protocol.Message.{ProtocolMessage}
use share_note_pad.Sync.Server.{sync_chunk_chars, sync_chunk, chunk_count_of}
use share_note_pad.Window.Replica.{all_received, merge_chunks}

-- The text of a chunk.
unfoldable pub piece : Text → ℕ → Text
piece document index =
    take (min sync_chunk_chars (length document - index * sync_chunk_chars))
      (drop (index * sync_chunk_chars) document)

unfoldable pub pieces : Text → ℕ → ℕ → List Text
pieces document zero index = []
pieces document (suc n) index = piece document index ∷ pieces document n (index + 1)

-- The messages of a response from a chunk on, `n` of them.
unfoldable pub sync_messages : Text → Text → ℕ → ℕ → ℕ → ℕ → List ProtocolMessage
sync_messages code document revision count zero index = []
sync_messages code document revision count (suc n) index =
    sync_chunk code document revision count index
    ∷ sync_messages code document revision count n (index + 1)

take-min : (n : ℕ) (xs : Text) → take (min n (length xs)) xs ≡ take n xs
take-min zero xs = let e : min 0 (length xs) ≡ 0 = omega arith in ap (λ k. take k xs) e
take-min (suc n) [] =
    let e : min (suc n) 0 ≡ 0 = omega arith in ap (λ k. take k (let e : Text = [] in e)) e
take-min (suc n) (x ∷ xs) =
    let e : min (suc n) (suc (length xs)) ≡ suc (min n (length xs)) = omega arith in
    ap (λ k. take k (x ∷ xs)) e ∙ ap (◌∷◌ x) (take-min n xs)

piece-drop :
    (document : Text) (index : ℕ)
    → piece document index ++ drop ((index + 1) * sync_chunk_chars) document
      ≡ drop (index * sync_chunk_chars) document
unfolding piece
piece-drop document index =
    let c = sync_chunk_chars in
    let rest = drop (index * c) document in
    let e : (index + 1) * c ≡ index * c + c = omega arith in
    rw (← length-drop (index * c) document, e, take-min c rest, ← drop-drop c (index * c) document)
      (take-append-drop c rest)

merge_chunks-append :
    (xs ys : List Text) → merge_chunks (xs ++ ys) ≡ merge_chunks xs ++ merge_chunks ys
unfolding merge_chunks
merge_chunks-append [] ys = refl
merge_chunks-append (x ∷ xs) ys =
    rw (merge_chunks-append xs ys) (sym (append_assoc x (merge_chunks xs) (merge_chunks ys)))

merge_chunks-pieces :
    (document : Text) (n index : ℕ)
    → merge_chunks (pieces document n index) ++ drop ((index + n) * sync_chunk_chars) document
      ≡ drop (index * sync_chunk_chars) document
unfolding merge_chunks pieces
merge_chunks-pieces document zero index =
    let e : (index + 0) * sync_chunk_chars ≡ index * sync_chunk_chars = omega arith in
    ap (λ k. drop k document) e
merge_chunks-pieces document (suc n) index =
    let e : (index + suc n) * sync_chunk_chars ≡ (index + 1 + n) * sync_chunk_chars = omega arith in
    append_assoc (piece document index) (merge_chunks (pieces document n (index + 1))) _
    ∙ ap
        (λ k.
          piece document index ++ (merge_chunks (pieces document n (index + 1)) ++ drop k document))
        e
    ∙ ap (λ t. piece document index ++ t) (merge_chunks-pieces document n (index + 1))
    ∙ piece-drop document index

chunk_count_of-covers : (size : ℕ) → size ≤ chunk_count_of size * sync_chunk_chars
unfolding chunk_count_of
chunk_count_of-covers size = ground arith

pub chunk_count_of-positive : (size : ℕ) → 0 < chunk_count_of size
unfolding chunk_count_of
chunk_count_of-positive size = ground arith

pub merge_chunks-document :
    (document : Text)
    → merge_chunks (pieces document (chunk_count_of (length document)) 0) ≡ document
merge_chunks-document document =
    let count = chunk_count_of (length document) in
    sym (append-nil (merge_chunks (pieces document count 0)))
    ∙ ap (λ t. merge_chunks (pieces document count 0) ++ t)
        (sym (
          drop-all ((0 + count) * sync_chunk_chars) document
            (omega (arith, chunk_count_of-covers (length document)))))
    ∙ merge_chunks-pieces document count 0

module _ {ℓ} {A : Type ℓ} where
  pub set-append :
      (xs ys : List A) (y x : A) → set (xs ++ y ∷ ys) (length xs) x ≡ (xs ++ x ∷ []) ++ ys
  set-append [] ys y x = refl
  set-append (z ∷ xs) ys y x = ap (◌∷◌ z) (set-append xs ys y x)

  pub set-append_of :
      (k : ℕ) (xs ys : List A) (y x : A) → length xs ≡ k → set (xs ++ y ∷ ys) k x ≡ xs ++ x ∷ ys
  set-append_of k xs ys y x e =
      ap (λ i. set (xs ++ y ∷ ys) i x) (sym e) ∙ set-append xs ys y x ∙ append_assoc xs (x ∷ []) ys

  pub replicate-snoc : (n : ℕ) (a : A) → replicate n a ++ a ∷ [] ≡ a ∷ replicate n a
  replicate-snoc zero a = refl
  replicate-snoc (suc n) a = ap (◌∷◌ a) (replicate-snoc n a)

pub all_received-false :
    (n : ℕ) (flags : List Bool) → all_received (replicate n true ++ false ∷ flags) ≡ false
unfolding all_received
all_received-false zero flags = refl
all_received-false (suc n) flags = all_received-false n flags

pub all_received-true : (n : ℕ) → all_received (replicate n true) ≡ true
unfolding all_received
all_received-true zero = refl
all_received-true (suc n) = all_received-true n
