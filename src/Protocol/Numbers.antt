-- ===== src/Protocol/Numbers.antt =====
-- The unsigned numbers of client/protocol.cpp: what `<<` prints, `ParseUnsigned` reads, and it
-- refuses exactly what does not fit into 64 bits.
use share_note_pad.Base.{
  ℕ, zero, suc, ◌+◌, ◌-◌, ◌*◌, ◌/◌, ◌%◌, ◌≤◌, ◌<◌, ◌≡◌, refl, ap, ◌∙◌, true, false, some, none, [],
  ◌∷◌, ◌++◌, arith, length, ltb, leb, ltb→lt, if◌then◌else◌, Text, Bool-cases, inl, inr,
}
use share_note_pad.Protocol.Json.{
  max_u64, is_digit, scan_digits, parse_unsigned, digits_onto, format_unsigned,
}

-- The text does not begin with a digit.
abbrev pub NoDigit : Text → Type 0
NoDigit [] = Unit
NoDigit (c ∷ _) = is_digit c ≡ false

scan_digits-digit :
    (result d : ℕ) (text : Text)
    → d < 10
    → result * 10 + d ≤ max_u64
    → scan_digits result ((b'0' + d) ∷ text) ≡ scan_digits (result * 10 + d) text
unfolding scan_digits
scan_digits-digit result d text h fits = ground arith

scan_digits-digits_onto :
    (rounds n : ℕ) (out rest : Text)
    → n < rounds
    → n ≤ max_u64
    → scan_digits 0 (digits_onto rounds n out ++ rest) ≡ scan_digits n (out ++ rest)
unfolding digits_onto
scan_digits-digits_onto zero n out rest h fits = elim h [ ]
scan_digits-digits_onto (suc rounds) n out rest h fits = elim (Bool-cases (ltb n 10)) [
  | inl small ↦ rw small (
      scan_digits-digit 0 n _ (ltb→lt n 10 small) (omega arith)
      ∙ ap (λ k. scan_digits k (out ++ rest)) (let e : 0 * 10 + n ≡ n = omega arith in e))
  | inr more ↦ rw more (
      scan_digits-digits_onto rounds (n / 10) ((b'0' + n % 10) ∷ out) rest (ground arith)
        (omega arith)
      ∙ scan_digits-digit (n / 10) (n % 10) (out ++ rest) (omega arith) (omega arith)
      ∙ ap (λ k. scan_digits k (out ++ rest)) (let e : n / 10 * 10 + n % 10 ≡ n = omega arith in e))
]

scan_digits-NoDigit : (n : ℕ) (rest : Text) → NoDigit rest → scan_digits n rest ≡ some (n, rest)
unfolding scan_digits
scan_digits-NoDigit n [] h = refl
scan_digits-NoDigit n (c ∷ rest) h = ground arith

parse_unsigned-digits_onto :
    (rounds n : ℕ) (out rest : Text)
    → n < rounds
    → parse_unsigned (digits_onto rounds n out ++ rest)
      ≡ scan_digits 0 (digits_onto rounds n out ++ rest)
unfolding digits_onto
parse_unsigned-digits_onto zero n out rest h = elim h [ ]
parse_unsigned-digits_onto (suc rounds) n out rest h = elim (Bool-cases (ltb n 10)) [
  | inl small ↦ rw small (unfold parse_unsigned in ground arith)
  | inr more ↦
      rw more
        (parse_unsigned-digits_onto rounds (n / 10) ((b'0' + n % 10) ∷ out) rest (ground arith))
]

-- A printed number is read back, whatever stands behind it.
pub parse_unsigned-format :
    (n : ℕ) (rest : Text)
    → n ≤ max_u64
    → NoDigit rest
    → parse_unsigned (format_unsigned n ++ rest) ≡ some (n, rest)
unfolding format_unsigned
parse_unsigned-format n rest fits h =
    parse_unsigned-digits_onto (suc n) n [] rest (omega arith)
    ∙ scan_digits-digits_onto (suc n) n [] rest (omega arith) fits
    ∙ scan_digits-NoDigit n rest h

-- The number that the digits of a text spell, with no bound.
abbrev pub value_of : ℕ → Text → ℕ
value_of result [] = result
value_of result (c ∷ text) = value_of (result * 10 + (c - b'0')) text

abbrev pub AllDigits : Text → Type 0
AllDigits [] = Unit
AllDigits (c ∷ text) = (is_digit c ≡ true) × AllDigits text

le-value_of : (digits : Text) (n : ℕ) → n ≤ value_of n digits
le-value_of [] n = omega arith
le-value_of (c ∷ digits) n = omega (arith, le-value_of digits (n * 10 + (c - b'0')))

scan_digits-exact :
    (digits rest : Text) (n : ℕ)
    → n ≤ max_u64
    → AllDigits digits
    → NoDigit rest
    → scan_digits n (digits ++ rest)
      ≡ (if leb (value_of n digits) max_u64 then some (value_of n digits, rest) else none)
unfolding scan_digits
scan_digits-exact [] rest n fits all h = (scan_digits-NoDigit n rest h) ∙ ground arith
scan_digits-exact (c ∷ digits) rest n fits all h = ground (
  arith,
  scan_digits-exact digits rest (n * 10 + (c - b'0')),
  le-value_of digits (n * 10 + (c - b'0')),
)

-- `ParseUnsigned` on a run of digits: their value if it fits into 64 bits, and else a refusal.
pub parse_unsigned_exact :
    (c : ℕ) (digits rest : Text)
    → AllDigits (c ∷ digits)
    → NoDigit rest
    → parse_unsigned (c ∷ (digits ++ rest)) ≡ (
        if leb (value_of 0 (c ∷ digits)) max_u64
        then some (value_of 0 (c ∷ digits), rest)
        else none)
unfolding parse_unsigned
parse_unsigned_exact c digits rest all h = ground (arith, scan_digits-exact (c ∷ digits) rest 0)

-- What is left behind a number is shorter.
module _ {v : ℕ} {rest : Text} where
  length-scan_digits :
      (text : Text) (n : ℕ) → scan_digits n text ≡ some (v, rest) → length rest ≤ length text
  unfolding scan_digits
  length-scan_digits [] n h = ground arith
  length-scan_digits (c ∷ text) n h = ground (arith, length-scan_digits text (n * 10 + (c - b'0')))

pub length-parse_unsigned :
    (text : Text) {v : ℕ} {rest : Text}
    → parse_unsigned text ≡ some (v, rest)
    → length rest < length text
unfolding parse_unsigned
length-parse_unsigned [] h = cc
length-parse_unsigned (c ∷ text) {v} {rest} h =
    ground (arith, length-scan_digits {v = v} {rest = rest} text (0 * 10 + (c - b'0')))

digits_onto-head :
    (rounds n : ℕ) (out : Text)
    → n < rounds
    → (d : ℕ) × (t : Text) × (d < 10) × (digits_onto rounds n out ≡ (b'0' + d) ∷ t)
unfolding digits_onto
digits_onto-head zero n out h = elim h [ ]
digits_onto-head (suc rounds) n out h = elim (Bool-cases (ltb n 10)) [
  | inl small ↦ (n, out, ltb→lt n 10 small, rw small refl)
  | inr more ↦
      let (d, t, l, e) = digits_onto-head rounds (n / 10) ((b'0' + n % 10) ∷ out) (ground arith) in
      (d, t, l, rw more e)
]

-- A printed number begins with a digit.
pub format_unsigned-head :
    (n : ℕ) → (d : ℕ) × (t : Text) × (d < 10) × (format_unsigned n ≡ (b'0' + d) ∷ t)
unfolding format_unsigned
format_unsigned-head n = digits_onto-head (suc n) n [] (omega arith)
