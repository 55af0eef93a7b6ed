-- ===== src/Main/Preview/Lines.antt =====
-- The loop of `RenderMarkdownPreview`, line by line.
use share_note_pad.Base.{
  ℕ, zero, suc, ◌≤◌, ◌≡◌, refl, ap, ◌∙◌, sym, Bool, true, false, not, if◌then◌else◌, List, [], ◌∷◌,
  ◌++◌, length, append_assoc, Text, codes, arith,
}
use share_note_pad.Main.Preview.{
  is_line_end, skip_line_feed, cut_line, new_line, is_fence, render_line, render_from,
  render_markdown_preview,
}

-- The line has no line break in it.
abbrev pub IsLine : Text → Type 0
IsLine [] = Unit
IsLine (c ∷ line) = (is_line_end c ≡ false) × IsLine line

-- The lines of a text, each with its line break.
unfoldable pub with_breaks : List Text → Text
with_breaks [] = []
with_breaks (line ∷ lines) = line ++ (new_line ++ with_breaks lines)

cut_line-IsLine :
    (line rest : Text) → IsLine line → cut_line (line ++ (new_line ++ rest)) ≡ (line, rest)
unfolding cut_line skip_line_feed
cut_line-IsLine [] rest h = refl
cut_line-IsLine (c ∷ line) rest (h, k) = rw (cut_line, cut_line-IsLine line rest k) (ground arith)

cut_line-le : (c : ℕ) (rest : Text) → length (cut_line (c ∷ rest)).1 ≤ length rest
unfolding cut_line skip_line_feed
cut_line-le c [] = ground arith
cut_line-le c (d ∷ rest) = ground (arith, cut_line-le d rest)

-- Fuel for every unit is enough: more of it changes nothing.
render_from-fuel :
    (fuel more : ℕ) (in_code_block : Bool) (rest : Text)
    → length rest ≤ fuel
    → length rest ≤ more
    → render_from fuel in_code_block rest ≡ render_from more in_code_block rest
unfolding render_from
render_from-fuel zero zero in_code_block rest h k = refl
render_from-fuel zero (suc more) in_code_block [] h k = refl
render_from-fuel zero more in_code_block (c ∷ rest) h k = absurd (omega arith)
render_from-fuel (suc fuel) zero in_code_block [] h k = refl
render_from-fuel (suc fuel) zero in_code_block (c ∷ rest) h k = absurd (omega arith)
render_from-fuel (suc fuel) (suc more) in_code_block [] h k = refl
render_from-fuel (suc fuel) (suc more) in_code_block (c ∷ rest) h k =
    let (line, left) = cut_line (c ∷ rest) in
    let (in_code_block', output) = render_line in_code_block line in
    let shorter = cut_line-le c rest in
    ap (◌++◌ output) (render_from-fuel fuel more in_code_block' left (omega arith) (omega arith))

-- The preview of a text that begins in a code block or outside of one.
unfoldable pub render : Bool → Text → Text
render in_code_block rest = render_from (length rest) in_code_block rest

render-cons :
    (in_code_block : Bool) (c : ℕ) (rest : Text)
    → let (line, left) = cut_line (c ∷ rest) in
      let (in_code_block', output) = render_line in_code_block line in
      render in_code_block (c ∷ rest) ≡ output ++ render in_code_block' left
unfolding render render_from
render-cons in_code_block c rest =
    let (line, left) = cut_line (c ∷ rest) in
    let (in_code_block', output) = render_line in_code_block line in
    let shorter = cut_line-le c rest in
    ap (◌++◌ output)
      (render_from-fuel (length rest) (length left) in_code_block' left (omega arith) (omega arith))

-- One line with its break is rendered by itself, and the rest after it.
render-line :
    (in_code_block : Bool) (line rest : Text)
    → IsLine line
    → let (in_code_block', output) = render_line in_code_block line in
      render in_code_block (line ++ (new_line ++ rest)) ≡ output ++ render in_code_block' rest
render-line in_code_block [] rest h =
    render-cons in_code_block b'\r' (b'\n' ∷ rest)
    ∙ ap
        (λ (cut : Text × Text).
          let (line, left) = cut in
          let (in_code_block', output) = render_line in_code_block line in
          output ++ render in_code_block' left)
        (cut_line-IsLine [] rest h)
render-line in_code_block (c ∷ line) rest h =
    render-cons in_code_block c (line ++ (new_line ++ rest))
    ∙ ap
        (λ (cut : Text × Text).
          let (cut_line, left) = cut in
          let (in_code_block', output) = render_line in_code_block cut_line in
          output ++ render in_code_block' left)
        (cut_line-IsLine (c ∷ line) rest h)

-- Lines of code: none of them is a fence.
abbrev pub AreCode : List Text → Type 0
AreCode [] = Unit
AreCode (line ∷ lines) = IsLine line × (is_fence line ≡ false) × AreCode lines

render_line-fence :
    (in_code_block : Bool) (line : Text)
    → is_fence line ≡ true
    → render_line in_code_block line
      ≡ (not in_code_block, if not in_code_block then codes "[code]\r\n" else codes "[/code]\r\n")
unfolding render_line
render_line-fence in_code_block line f = rw f refl

render_line-code :
    (line : Text) → is_fence line ≡ false → render_line true line ≡ (true, line ++ new_line)
unfolding render_line
render_line-code line f = rw f refl

render_code :
    (lines : List Text) (rest : Text)
    → AreCode lines
    → render true (with_breaks lines ++ rest) ≡ with_breaks lines ++ render true rest
unfolding with_breaks
render_code [] rest h = refl
render_code (line ∷ lines) rest (is_line, code, h) =
    ap (render true) (append_assoc line _ rest)
    ∙ render-line true line (with_breaks lines ++ rest) is_line
    ∙ ap (λ (r : Bool × Text). r.1 ++ render r.0 (with_breaks lines ++ rest))
        (render_line-code line code)
    ∙ ap (◌++◌ (line ++ new_line)) (render_code lines rest h)
    ∙ append_assoc line new_line _
    ∙ sym (append_assoc line _ (render true rest))

-- A block of code appears as it was written, line by line, between `[code]` and `[/code]`, and what
-- stands behind the block is rendered as a text of its own.
pub render_markdown_preview-code :
    (opening closing rest : Text) (lines : List Text)
    → IsLine opening
    → is_fence opening ≡ true
    → AreCode lines
    → IsLine closing
    → is_fence closing ≡ true
    → render_markdown_preview
        (opening ++ (new_line ++ (with_breaks lines ++ (closing ++ (new_line ++ rest)))))
      ≡ codes "[code]\r\n"
        ++ (with_breaks lines ++ (codes "[/code]\r\n" ++ render_markdown_preview rest))
unfolding render_markdown_preview render
render_markdown_preview-code opening closing rest lines o fo h c fc =
    let behind = closing ++ (new_line ++ rest) in
    render-line false opening (with_breaks lines ++ behind) o
    ∙ ap (λ (r : Bool × Text). r.1 ++ render r.0 (with_breaks lines ++ behind))
        (render_line-fence false opening fo)
    ∙ ap (◌++◌ (codes "[code]\r\n")) (
        render_code lines behind h
        ∙ ap (◌++◌ (with_breaks lines)) (
            render-line true closing rest c
            ∙ ap (λ (r : Bool × Text). r.1 ++ render r.0 rest) (render_line-fence true closing fc)))
