-- ===== src/Main/Preview.antt =====
-- `RenderMarkdownPreview` of client/window.cpp and the helpers that it calls.
pub mod Inline
pub mod Lines
use share_note_pad.Base.{
  ℕ, zero, suc, ◌+◌, Bool, true, false, not, ◌&&◌, ◌||◌, Option, some, none, [], ◌∷◌, ◌++◌, ltb,
  leb, ◌==◌, if◌then◌else◌, length, take, drop, get_elem?, Text, codes, text_eq,
}

unfoldable pub starts_with : Text → Text → Bool
starts_with value prefix =
    leb (length prefix) (length value) && text_eq (take (length prefix) value) prefix

unfoldable pub trim_left : Text → Text
trim_left [] = []
trim_left (c ∷ value) = if c == b' ' || c == b'\t' then trim_left value else c ∷ value

-- `find` of one code unit; `none` is npos.
unfoldable pub find : ℕ → Text → Option ℕ
find ch [] = none
find ch (c ∷ value) =
    if c == ch then some 0 else elim (find ch value) [ none ↦ none | some k ↦ some (k + 1) ]

-- The text of `[text](url)` after its first bracket, as the preview writes it, and what is left
-- behind it: `close_url` counts from the address.
abbrev pub link_to : Text → ℕ → Option ℕ → Option (Text × Text)
link_to rest close_text none = none
link_to rest close_text (some close_url) =
    let url = drop (close_text + 2) rest in
    some (
      take close_text rest ++ (codes " (" ++ (take close_url url ++ codes ")")),
      drop (close_url + 1) url,
    )

abbrev pub is_unit : ℕ → Option ℕ → Bool
is_unit ch none = false
is_unit ch (some c) = c == ch

unfoldable pub link_at : Text → Option (Text × Text)
link_at rest = elim (find b']' rest) [
  | none ↦ none
  | some close_text ↦
      if is_unit b'(' (get_elem? rest (close_text + 1))
      then link_to rest close_text (find b')' (drop (close_text + 2) rest))
      else none
]

abbrev pub link_or_unit : ℕ → Text → Option (Text × Text) → Text × Text
link_or_unit ch rest none = (ch ∷ [], rest)
link_or_unit ch rest (some link) = link

-- One round of the loop at the unit `ch`: what is appended, and the text that is left.
unfoldable pub strip_step : ℕ → Text → Text × Text
unfolding starts_with
strip_step ch rest =
    if starts_with (ch ∷ rest) (codes "**") || starts_with (ch ∷ rest) (codes "__")
    then ([], drop 1 rest)
    else if ch == b'`' || ch == b'*' || ch == b'_'
    then ([], rest)
    else if ch == b'['
    then link_or_unit ch rest (link_at rest)
    else (ch ∷ [], rest)

unfoldable pub strip_from : ℕ → Text → Text
strip_from zero value = []
strip_from (suc fuel) [] = []
strip_from (suc fuel) (ch ∷ rest) =
    let (output, left) = strip_step ch rest in output ++ strip_from fuel left

unfoldable pub strip_inline_markdown : Text → Text
strip_inline_markdown value = strip_from (length value) value

abbrev pub is_line_end : ℕ → Bool
is_line_end c = c == b'\r' || c == b'\n'

-- A line break is cut off whole.
pub skip_line_feed : Text → Text
skip_line_feed [] = []
skip_line_feed (c ∷ rest) = if c == b'\n' then rest else c ∷ rest

unfoldable pub cut_line : Text → Text × Text
unfolding skip_line_feed
cut_line [] = ([], [])
cut_line (c ∷ rest) =
    let (line, left) = cut_line rest in
    if c == b'\r'
    then ([], skip_line_feed rest)
    else if c == b'\n'
    then ([], rest)
    else (c ∷ line, left)

-- The number of `#` in front, `limit` at most.
unfoldable pub heading_level : ℕ → Text → ℕ
heading_level zero value = 0
heading_level (suc limit) [] = 0
heading_level (suc limit) (c ∷ value) = if c == b'#' then heading_level limit value + 1 else 0

abbrev pub new_line : Text
new_line = codes "\r\n"

unfoldable pub is_heading : Text → Bool
is_heading trimmed =
    let level = heading_level 6 trimmed in
    ltb 0 level && elim (get_elem? trimmed level) [ none ↦ false | some c ↦ c == b' ' ]

abbrev underline : ℕ → Text
underline level = if leb level 2 then codes "================" else codes "----------------"

-- A line outside a code block; `trimmed` is the line without its blanks in front.
unfoldable pub render_text_line : Text → Text → Text
unfolding is_heading starts_with
render_text_line line trimmed =
    if is_heading trimmed
    then strip_inline_markdown (drop (heading_level 6 trimmed + 1) trimmed)
      ++ (new_line ++ (underline (heading_level 6 trimmed) ++ new_line))
    else if starts_with trimmed (codes "> ")
    then codes "> " ++ (strip_inline_markdown (drop 2 trimmed) ++ new_line)
    else if starts_with trimmed (codes "- [ ] ") || starts_with trimmed (codes "* [ ] ")
    then codes "[ ] " ++ (strip_inline_markdown (drop 6 trimmed) ++ new_line)
    else if starts_with trimmed (codes "- [x] ")
        || starts_with trimmed (codes "- [X] ")
        || starts_with trimmed (codes "* [x] ")
        || starts_with trimmed (codes "* [X] ")
    then codes "[x] " ++ (strip_inline_markdown (drop 6 trimmed) ++ new_line)
    else if starts_with trimmed (codes "- ")
        || starts_with trimmed (codes "* ")
        || starts_with trimmed (codes "+ ")
    then codes "- " ++ (strip_inline_markdown (drop 2 trimmed) ++ new_line)
    else strip_inline_markdown line ++ new_line

abbrev pub is_fence : Text → Bool
is_fence line = starts_with (trim_left line) (codes "```")

-- Whether the next line is in a code block, and what the line appends to the preview.
unfoldable pub render_line : Bool → Text → Bool × Text
render_line in_code_block line =
    if is_fence line
    then (not in_code_block, if not in_code_block then codes "[code]\r\n" else codes "[/code]\r\n")
    else if in_code_block
    then (true, line ++ new_line)
    else (false, render_text_line line (trim_left line))

unfoldable pub render_from : ℕ → Bool → Text → Text
render_from zero in_code_block rest = []
render_from (suc fuel) in_code_block [] = []
render_from (suc fuel) in_code_block (c ∷ rest) =
    let (line, left) = cut_line (c ∷ rest) in
    let (in_code_block', output) = render_line in_code_block line in
    output ++ render_from fuel in_code_block' left

unfoldable pub render_markdown_preview : Text → Text
render_markdown_preview markdown = render_from (length markdown) false markdown
