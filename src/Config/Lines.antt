-- ===== src/Config/Lines.antt =====
-- The lines of config.ini: `std::getline`, `Trim` of client/config.cpp and `find` of the sign between
-- key and value.
use share_note_pad.Base.{
  ℕ, ◌+◌, ◌≡◌, refl, ap, Bool, false, ◌&&◌, ◌||◌, Option, some, none, List, [], ◌∷◌, ◌++◌, ◌==◌,
  if◌then◌else◌, Text,
}
use share_note_pad.Protocol.Codec.{is_empty}

abbrev pub is_blank : ℕ → Bool
is_blank ch = ch == b' ' || (ch == b'\t' || (ch == b'\r' || ch == b'\n'))

unfoldable pub trim_start : Text → Text
trim_start [] = []
trim_start (c ∷ value) = if is_blank c then trim_start value else c ∷ value

unfoldable pub trim_end : Text → Text
trim_end [] = []
trim_end (c ∷ value) =
    let rest = trim_end value in if is_blank c && is_empty rest then [] else c ∷ rest

-- `Trim`.
unfoldable pub trim : Text → Text
unfolding trim_start trim_end
trim value = trim_end (trim_start value)

-- `find(L'=')`; `none` is npos.
unfoldable pub find_equals : Text → Option ℕ
find_equals [] = none
find_equals (c ∷ line) =
    let found : Option ℕ = elim (find_equals line) [ none ↦ none | some k ↦ some (k + 1) ] in
    if c == b'=' then some 0 else found

onto_line : ℕ → List Text → List Text
onto_line c [] = (c ∷ []) ∷ []
onto_line c (line ∷ lines) = (c ∷ line) ∷ lines

-- The lines that `std::getline` reads one after the other.
unfoldable pub lines_of : Text → List Text
unfolding onto_line
lines_of [] = []
lines_of (c ∷ text) =
    let lines = lines_of text in if c == b'\n' then [] ∷ lines else onto_line c lines

-- No line break is in the text.
abbrev pub NoBreak : Text → Type 0
NoBreak [] = Unit
NoBreak (c ∷ text) = ((c == b'\n') ≡ false) × NoBreak text

pub lines_of-break :
    (line rest : Text) → NoBreak line → lines_of (line ++ b'\n' ∷ rest) ≡ line ∷ lines_of rest
unfolding lines_of onto_line
lines_of-break [] rest h = refl
lines_of-break (c ∷ line) rest (n, h) =
    rw (n, lines_of) (ap (onto_line c) (lines_of-break line rest h))
