-- ===== src/StreamingJson/Unescape.antt =====
-- The two ways in which the parser decodes an escape in a streamed string:
-- `_SIMPLE_ESCAPES` and `chr(int(…, 16))`.
use interview_coach.Base.{
  ℕ, ◌+◌, ◌-◌, ◌*◌, Bool, true, false, ◌&&◌, ◌||◌, Option, none, some, [], ◌∷◌, leb, ltb, ◌==◌,
  if◌then◌else◌,
}
use interview_coach.Text.{Text, isspace, strip_by}

-- `_SIMPLE_ESCAPES.get(ch, ch)`
unfoldable pub unescape_simple : ℕ → ℕ
unescape_simple ch =
    if ch == b'b'
    then 8
    else if ch == b'f'
    then 12
    else if ch == b'n'
    then 10
    else if ch == b'r'
    then 13
    else if ch == b't'
    then 9
    else ch

-- The value of a character as a digit of base 16. `decimal` is the interpreter's table of the
-- decimal digits outside ASCII, which `int` also takes.
unfoldable pub hex_digit : (ℕ → Option ℕ) → ℕ → Option ℕ
hex_digit decimal c =
    if leb b'0' c && leb c b'9'
    then some (c - b'0')
    else if leb b'a' c && leb c b'f'
    then some (c - b'a' + 10)
    else if leb b'A' c && leb c b'F'
    then some (c - b'A' + 10)
    else if ltb c 128
    then none
    else decimal c

-- Digits, with single underscores between them. The flag says that a digit went before.
unfoldable pub hex_digits : (ℕ → Option ℕ) → Bool → ℕ → Text → Option ℕ
hex_digits decimal after acc [] = if after then some acc else none
hex_digits decimal after acc (c ∷ s) =
    let under = hex_digits decimal false acc s in
    if c == b'_' && after then under else elim (hex_digit decimal c) [
      | none ↦ none
      | some d ↦ hex_digits decimal true (acc * 16 + d) s
    ]

-- An optional `0x` or `0X`, which one underscore may follow.
unfoldable pub hex_body : (ℕ → Option ℕ) → Text → Option ℕ
hex_body decimal (z ∷ x ∷ u ∷ s) =
    if z == b'0' && (x == b'x' || x == b'X')
    then (if u == b'_' then hex_digits decimal false 0 s else hex_digits decimal false 0 (u ∷ s))
    else hex_digits decimal false 0 (z ∷ x ∷ u ∷ s)
hex_body decimal s = hex_digits decimal false 0 s

-- A negative number is no code point, unless it is `-0`.
abbrev not_negative : Option ℕ → Option ℕ
not_negative (some n) = if n == 0 then some 0 else none
not_negative none = none

unfoldable pub hex_signed : (ℕ → Option ℕ) → Text → Option ℕ
hex_signed decimal [] = none
hex_signed decimal (c ∷ s) =
    if c == b'-'
    then not_negative (hex_body decimal s)
    else if c == b'+'
    then hex_body decimal s
    else hex_body decimal (c ∷ s)

-- White space for `int`: that of C in ASCII, and that of Unicode beyond.
unfoldable pub int_space : ℕ → Bool
unfolding isspace
int_space c = leb 9 c && leb c 13 || c == 32 || leb 128 c && isspace c

-- `chr(int(s, 16))`, or `none` for the `ValueError`. The parser calls it on four characters, so
-- the number is below the end of Unicode.
unfoldable pub chr_int : (ℕ → Option ℕ) → Text → Option ℕ
unfolding hex_signed hex_body hex_digits hex_digit int_space strip_by
chr_int decimal s = hex_signed decimal (strip_by int_space s)
