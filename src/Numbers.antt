-- ===== src/Numbers.antt =====
-- `std::stoul` in base 10, with an `unsigned long` of 32 bits as on Windows: it skips blanks, reads a
-- sign and digits, ignores what stands behind them, and throws (`none`) where there is no digit or the
-- value does not fit.
use share_note_pad.Base.{
  ℕ, zero, suc, ◌+◌, ◌-◌, ◌*◌, ◌%◌, ◌≤◌, ◌<◌, ◌≡◌, Bool, false, ◌&&◌, ◌||◌, Option, some, none, [],
  ◌∷◌, append-nil, ltb, leb, ◌==◌, if◌then◌else◌, Text, arith, if_cases, ◌/◌,
}
use share_note_pad.Protocol.Json.{
  is_digit, scan_digits, parse_unsigned, digits_onto, format_unsigned,
}
use share_note_pad.Protocol.Numbers.{parse_unsigned-format, format_unsigned-head}

-- `isspace`.
abbrev pub is_space : ℕ → Bool
is_space c = c == 32 || (leb 9 c && leb c 13)

unfoldable pub skip_spaces : Text → Text
skip_spaces [] = []
skip_spaces (c ∷ text) = if is_space c then skip_spaces text else c ∷ text

unfoldable pub read_digits : ℕ → Text → ℕ
read_digits value [] = value
read_digits value (c ∷ text) =
    let more = read_digits (value * 10 + (c - b'0')) text in if is_digit c then more else value

unfoldable pub magnitude : Text → Option ℕ
unfolding read_digits is_digit
magnitude [] = none
magnitude (c ∷ text) =
    let value = read_digits 0 (c ∷ text) in
    if is_digit c then (if ltb 4294967295 value then none else some value) else none

-- A minus sign negates the value modulo 2 ^ 32.
negate : Option ℕ → Option ℕ
negate none = none
negate (some value) = some ((4294967296 - value) % 4294967296)

signed : Text → Option ℕ
signed [] = none
signed (c ∷ text) =
    if c == b'-'
    then negate (magnitude text)
    else if c == b'+'
    then magnitude text
    else magnitude (c ∷ text)

unfoldable pub stoul : Text → Option ℕ
unfolding skip_spaces signed negate magnitude
stoul text = signed (skip_spaces text)

read_digits-scan_digits :
    (text rest : Text) (value n : ℕ)
    → scan_digits value text ≡ some (n, rest)
    → read_digits value text ≡ n
unfolding scan_digits read_digits
read_digits-scan_digits [] rest value n e = ground arith
read_digits-scan_digits (c ∷ text) rest value n e =
    ground (arith, read_digits-scan_digits text rest (value * 10 + (c - b'0')) n)

magnitude-digits :
    (d : ℕ) (text : Text) (n : ℕ)
    → d < 10
    → parse_unsigned ((b'0' + d) ∷ text) ≡ some (n, [])
    → n ≤ 4294967295
    → stoul ((b'0' + d) ∷ text) ≡ some n
unfolding stoul skip_spaces signed magnitude parse_unsigned is_digit
magnitude-digits d text n h e small =
    ground (arith, read_digits-scan_digits ((b'0' + d) ∷ text) [] 0 n)

-- A printed number is read back.
pub stoul-format : (n : ℕ) → n ≤ 4294967295 → stoul (format_unsigned n) ≡ some n
stoul-format n small =
    let (d, text, h, e) = format_unsigned-head n in
    let parsed : parse_unsigned (format_unsigned n) ≡ some (n, []) =
      rw append-nil at (parse_unsigned-format n [] (omega arith) tt) in
    rw e (magnitude-digits d text n h (rw e at parsed) small)

-- No blank is in the text.
abbrev pub NoSpace : Text → Type 0
NoSpace [] = Unit
NoSpace (c ∷ text) = (is_space c ≡ false) × NoSpace text

digits_onto-NoSpace : (rounds n : ℕ) (out : Text) → NoSpace out → NoSpace (digits_onto rounds n out)
unfolding digits_onto
digits_onto-NoSpace zero n out h = h
digits_onto-NoSpace (suc rounds) n out h =
    if_cases NoSpace (ltb n 10) _ _ (λ e. (ground arith, h))
      (λ e. digits_onto-NoSpace rounds (n / 10) _ (digit (n % 10) (omega arith), h))
  where
    digit : (d : ℕ) → d < 10 → is_space (b'0' + d) ≡ false
    digit d l = ground arith

pub format_unsigned-NoSpace : (n : ℕ) → NoSpace (format_unsigned n)
unfolding format_unsigned
format_unsigned-NoSpace n = digits_onto-NoSpace (suc n) n [] tt
