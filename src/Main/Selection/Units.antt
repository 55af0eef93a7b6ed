-- ===== src/Main/Selection/Units.antt =====
-- Which unit stands where in a text after an insertion or a deletion.
use share_note_pad.Base.{
  ℕ, zero, suc, ◌+◌, ◌-◌, ◌≤◌, ◌<◌, ◌≡◌, refl, ap, ◌∙◌, List, [], ◌∷◌, ◌++◌, length, take, drop,
  get_elem?, Text, arith, length-take_le,
}
use share_note_pad.Document.Model.{insert_at, erase_at}

module _ {ℓ} {A : Type ℓ} where
  get_elem?-append_lt :
      (xs ys : List A) (i : ℕ) → i < length xs → get_elem? (xs ++ ys) i ≡ get_elem? xs i
  get_elem?-append_lt [] ys i h = absurd (omega arith)
  get_elem?-append_lt (x ∷ xs) ys zero h = refl
  get_elem?-append_lt (x ∷ xs) ys (suc i) h = get_elem?-append_lt xs ys i (omega arith)

  get_elem?-append_ge :
      (xs ys : List A) (i k : ℕ) → i ≡ length xs + k → get_elem? (xs ++ ys) i ≡ get_elem? ys k
  get_elem?-append_ge [] ys i k e = ap (get_elem? ys) (omega arith)
  get_elem?-append_ge (x ∷ xs) ys zero k e = absurd (omega arith)
  get_elem?-append_ge (x ∷ xs) ys (suc i) k e = get_elem?-append_ge xs ys i k (omega arith)

  get_elem?-take : (n i : ℕ) (xs : List A) → i < n → get_elem? (take n xs) i ≡ get_elem? xs i
  get_elem?-take zero i xs h = absurd (omega arith)
  get_elem?-take (suc n) i [] h = refl
  get_elem?-take (suc n) zero (x ∷ xs) h = refl
  get_elem?-take (suc n) (suc i) (x ∷ xs) h = get_elem?-take n i xs (omega arith)

  get_elem?-drop : (n i k : ℕ) (xs : List A) → k ≡ n + i → get_elem? (drop n xs) i ≡ get_elem? xs k
  get_elem?-drop zero i k xs e = ap (get_elem? xs) (omega arith)
  get_elem?-drop (suc n) i zero [] e = absurd (omega arith)
  get_elem?-drop (suc n) i (suc k) [] e = refl
  get_elem?-drop (suc n) i zero (x ∷ xs) e = absurd (omega arith)
  get_elem?-drop (suc n) i (suc k) (x ∷ xs) e = get_elem?-drop n i k xs (omega arith)

module _ (content : Text) (position : ℕ) (inside : position ≤ length content) where
  front : length (take position content) ≡ position
  front = length-take_le position content inside

  pub get_elem?-insert_at-lt :
      (text : Text) (i : ℕ)
      → i < position
      → get_elem? (insert_at position text content) i ≡ get_elem? content i
  get_elem?-insert_at-lt text i h =
      get_elem?-append_lt (take position content) _ i (omega (arith, front))
      ∙ get_elem?-take position i content h

  pub get_elem?-insert_at-ge :
      (text : Text) (i : ℕ)
      → position ≤ i
      → get_elem? (insert_at position text content) (i + length text) ≡ get_elem? content i
  get_elem?-insert_at-ge text i h =
      get_elem?-append_ge (take position content) _ (i + length text) (i - position + length text)
        (omega (arith, front))
      ∙ get_elem?-append_ge text _ (i - position + length text) (i - position) (omega arith)
      ∙ get_elem?-drop position (i - position) i content (omega arith)

  pub get_elem?-erase_at-lt :
      (count i : ℕ)
      → i < position
      → get_elem? (erase_at position count content) i ≡ get_elem? content i
  get_elem?-erase_at-lt count i h =
      get_elem?-append_lt (take position content) _ i (omega (arith, front))
      ∙ get_elem?-take position i content h

  pub get_elem?-erase_at-ge :
      (count i : ℕ)
      → position + count ≤ i
      → get_elem? (erase_at position count content) (i - count) ≡ get_elem? content i
  get_elem?-erase_at-ge count i h =
      get_elem?-append_ge (take position content) _ (i - count) (i - count - position)
        (omega (arith, front))
      ∙ get_elem?-drop (position + count) (i - count - position) i content (omega arith)
