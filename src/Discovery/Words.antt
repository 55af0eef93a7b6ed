-- ===== src/Discovery/Words.antt =====
-- The words that `>>` reads from a stream of bytes, one after the other.
use share_note_pad.Base.{
  ◌≡◌, refl, ap, ◌∙◌, List, [], ◌∷◌, ◌++◌, append_assoc, append-nil, if◌then◌else◌, Bytes,
}
use share_note_pad.Numbers.{is_space, NoSpace}

abbrev pub end_word : Bytes → List Bytes → List Bytes
end_word [] more = more
end_word (c ∷ word) more = (c ∷ word) ∷ more

-- With the word that is being read.
unfoldable pub words_from : Bytes → Bytes → List Bytes
words_from word [] = end_word word []
words_from word (c ∷ bytes) =
    let next = words_from [] bytes in
    let longer = words_from (word ++ c ∷ []) bytes in
    if is_space c then end_word word next else longer

unfoldable pub words : Bytes → List Bytes
unfolding words_from
words bytes = words_from [] bytes

-- A word ends at a blank, and at the end of the bytes.
pub words_from-blank :
    (word bytes rest : Bytes)
    → NoSpace bytes
    → words_from word (bytes ++ b' ' ∷ rest) ≡ end_word (word ++ bytes) (words_from [] rest)
unfolding words_from
words_from-blank word [] rest h = rw append-nil refl
words_from-blank word (c ∷ bytes) rest (s, h) =
    rw (s, words_from)
      (words_from-blank (word ++ c ∷ []) bytes rest h
        ∙ ap (λ w. end_word w (words_from [] rest)) (append_assoc word (c ∷ []) bytes))

pub words_from-end :
    (word bytes : Bytes) → NoSpace bytes → words_from word bytes ≡ end_word (word ++ bytes) []
unfolding words_from
words_from-end word [] h = rw append-nil refl
words_from-end word (c ∷ bytes) (s, h) =
    rw (s, words_from)
      (words_from-end (word ++ c ∷ []) bytes h
        ∙ ap (λ w. end_word w []) (append_assoc word (c ∷ []) bytes))
