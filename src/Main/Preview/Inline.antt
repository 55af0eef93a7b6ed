-- ===== src/Main/Preview/Inline.antt =====
-- The loop of `StripInlineMarkdown`: how long it runs and how much it writes.
use share_note_pad.Base.{
  ℕ, zero, suc, ◌+◌, ◌≤◌, ◌<◌, ◌≡◌, refl, ap, [], ◌∷◌, ◌++◌, length, take, drop, length-append,
  length-take, length-drop, Text, codes, Option, some, none, arith, Option-cases, Bool-cases, inl,
  inr, get_elem?,
}
use share_note_pad.Main.Preview.{
  find, is_unit, link_to, link_at, strip_step, link_or_unit, strip_from, strip_inline_markdown,
}

some-inj {ℓ} : {A : Type ℓ} {a b : A} → some a ≡ some b → a ≡ b
some-inj e = cc

find-lt : (ch : ℕ) (value : Text) {k : ℕ} → find ch value ≡ some k → k < length value
unfolding find
find-lt ch [] e = cc
find-lt ch (c ∷ value) e = grind (arith, find-lt ch value)

link-length :
    (value : Text) (k j : ℕ)
    → k < length value
    → j < length (drop (k + 2) value)
    → length (take k value ++ (codes " (" ++ (take j (drop (k + 2) value) ++ codes ")")))
        + length (drop (j + 1) (drop (k + 2) value))
      ≤ length value
link-length value k j h i = grind (arith, length-append, length-take, length-drop)

link_to-length :
    (rest : Text) (k : ℕ) (close_url : Option ℕ) (link : Text × Text)
    → k < length rest
    → ((j : ℕ) → close_url ≡ some j → j < length (drop (k + 2) rest))
    → link_to rest k close_url ≡ some link
    → length link.0 + length link.1 ≤ length rest
link_to-length rest k none link h i e = cc
link_to-length rest k (some j) link h i e = rw (← some-inj e) (link-length rest k j h (i j refl))

link_at-length :
    (rest : Text) (link : Text × Text)
    → link_at rest ≡ some link
    → length link.0 + length link.1 ≤ length rest
unfolding link_at
link_at-length rest link e = elim (Option-cases (find b']' rest)) [
  | inl none_found ↦ cc
  | inr (k, found) ↦ elim (Bool-cases (is_unit b'(' (get_elem? rest (k + 1)))) [
    | inl opened ↦
        link_to-length rest k (find b')' (drop (k + 2) rest)) link (find-lt b']' rest found)
          (λ j. find-lt b')' (drop (k + 2) rest)) (rw (found, link_at, opened) at e)
    | inr other ↦ absurd (let z : none ≡ some link = rw (found, link_at, other) at e in cc)
  ]
]

-- A round of the loop appends no more than it takes.
strip_step-length :
    (ch : ℕ) (rest : Text)
    → let (output, left) = strip_step ch rest in length output + length left ≤ length rest + 1
unfolding strip_step
strip_step-length ch rest = grind (arith, link_at-length, length-drop)

link_or_unit-left :
    (ch : ℕ) (rest : Text) (link : Option (Text × Text))
    → ((found : Text × Text) → link ≡ some found → length found.0 + length found.1 ≤ length rest)
    → length (link_or_unit ch rest link).1 ≤ length rest
link_or_unit-left ch rest none h = omega arith
link_or_unit-left ch rest (some found) h = omega (arith, h found refl)

-- The text is shorter after every round.
strip_step-lt : (ch : ℕ) (rest : Text) → length (strip_step ch rest).1 ≤ length rest
unfolding strip_step
strip_step-lt ch rest =
    grind
      (arith, link_or_unit-left ch rest (link_at rest) (link_at-length rest), length-drop 1 rest)

-- Fuel for every unit is enough: more of it changes nothing.
strip_from-fuel :
    (fuel more : ℕ) (value : Text)
    → length value ≤ fuel
    → length value ≤ more
    → strip_from fuel value ≡ strip_from more value
unfolding strip_from
strip_from-fuel zero zero value h k = refl
strip_from-fuel zero (suc more) [] h k = refl
strip_from-fuel zero more (ch ∷ rest) h k = absurd (omega arith)
strip_from-fuel (suc fuel) zero [] h k = refl
strip_from-fuel (suc fuel) zero (ch ∷ rest) h k = absurd (omega arith)
strip_from-fuel (suc fuel) (suc more) [] h k = refl
strip_from-fuel (suc fuel) (suc more) (ch ∷ rest) h k =
    let shorter = strip_step-lt ch rest in
    ap (◌++◌ (strip_step ch rest).0)
      (strip_from-fuel fuel more (strip_step ch rest).1 (omega arith) (omega arith))

strip_from-length : (fuel : ℕ) (value : Text) → length (strip_from fuel value) ≤ length value
unfolding strip_from
strip_from-length zero value = omega arith
strip_from-length (suc fuel) [] = omega arith
strip_from-length (suc fuel) (ch ∷ rest) =
    let (output, left) = strip_step ch rest in
    omega (
      arith,
      strip_step-length ch rest,
      length-append output (strip_from fuel left),
      strip_from-length fuel left,
    )

strip_inline_markdown-length : (value : Text) → length (strip_inline_markdown value) ≤ length value
unfolding strip_inline_markdown
strip_inline_markdown-length value = strip_from-length (length value) value

-- `StripInlineMarkdown` reads the whole text: it takes one unit or more in every round, and goes on
-- with what the round leaves as if that were the whole text. The result is never longer.
pub strip_inline_markdown_rounds :
    (ch : ℕ) (rest : Text)
    → let (output, left) = strip_step ch rest in
      (strip_inline_markdown (ch ∷ rest) ≡ output ++ strip_inline_markdown left)
      × (length left ≤ length rest)
      × (length (strip_inline_markdown (ch ∷ rest)) ≤ length rest + 1)
unfolding strip_inline_markdown strip_from
strip_inline_markdown_rounds ch rest =
    let (output, left) = strip_step ch rest in
    let shorter = strip_step-lt ch rest in
    (
      ap (◌++◌ output)
          (strip_from-fuel (length rest) (length left) left (omega arith) (omega arith)),
      shorter,
      omega (arith, strip_inline_markdown-length (ch ∷ rest)),
    )
