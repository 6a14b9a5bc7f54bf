-- ===== src/StreamingJson/Hex.antt =====
-- Four digits of base 16, as `\u` takes them, in lower or upper case, are decoded to the number that
-- they spell.
use Prim.Native.Nat.{◌/◌, ◌%◌}
use interview_coach.Base.{
  ℕ, ◌+◌, ◌-◌, ◌*◌, ◌≤◌, ◌<◌, ◌≡◌, refl, ap, ◌∙◌, Bool, true, false, Option, some, [], ◌∷◌, arith,
  ltb, if◌then◌else◌,
}
use interview_coach.Text.{Text, strip_by-four}
use interview_coach.StreamingJson.Unescape.{
  hex_digit, hex_digits, hex_body, hex_signed, int_space, chr_int,
}

-- Whether the letter of a digit is written in upper case
abbrev pub digit : Bool → ℕ → ℕ
digit upper d = if ltb d 10 then d + b'0' else (if upper then d - 10 + b'A' else d - 10 + b'a')

-- The case of each of the four digits
pub record Cases : Type 0 where
  pub first : Bool
  pub second : Bool
  pub third : Bool
  pub fourth : Bool

-- The digits of a number below 2 ^ 16
abbrev pub hex4 : Cases → ℕ → Text
hex4 u n =
    digit u.first (n / 4096)
    ∷ digit u.second (n / 256 % 16)
    ∷ digit u.third (n / 16 % 16)
    ∷ digit u.fourth (n % 16)
    ∷ []

data IsDigit (c : ℕ) : Type 0 where
  decimal_digit : b'0' ≤ c → c ≤ b'9' → IsDigit c
  letter_digit : b'a' ≤ c → c ≤ b'f' → IsDigit c
  capital_digit : b'A' ≤ c → c ≤ b'F' → IsDigit c

digit-IsDigit : (u : Bool) (d : ℕ) → d < 16 → IsDigit (digit u d)
digit-IsDigit true d h = grind (arith, decimal_digit, capital_digit)
digit-IsDigit false d h = grind (arith, decimal_digit, letter_digit)

hex_digit-digit :
    (decimal : ℕ → Option ℕ) (u : Bool) (d : ℕ) → d < 16 → hex_digit decimal (digit u d) ≡ some d
unfolding hex_digit
hex_digit-digit decimal true d h = ground arith
hex_digit-digit decimal false d h = ground arith

int_space-digit : (c : ℕ) → IsDigit c → int_space c ≡ false
unfolding int_space
int_space-digit c (decimal_digit p q) = ground arith
int_space-digit c (letter_digit p q) = ground arith
int_space-digit c (capital_digit p q) = ground arith

hex_signed-digit :
    (decimal : ℕ → Option ℕ) (c : ℕ) (s : Text)
    → IsDigit c
    → hex_signed decimal (c ∷ s) ≡ hex_body decimal (c ∷ s)
unfolding hex_signed
hex_signed-digit decimal c s (decimal_digit p q) = ground arith
hex_signed-digit decimal c s (letter_digit p q) = ground arith
hex_signed-digit decimal c s (capital_digit p q) = ground arith

hex_body-digit :
    (decimal : ℕ → Option ℕ) (a b c : ℕ) (s : Text)
    → IsDigit b
    → hex_body decimal (a ∷ b ∷ c ∷ s) ≡ hex_digits decimal false 0 (a ∷ b ∷ c ∷ s)
unfolding hex_body
hex_body-digit decimal a b c s (decimal_digit p q) = ground arith
hex_body-digit decimal a b c s (letter_digit p q) = ground arith
hex_body-digit decimal a b c s (capital_digit p q) = ground arith

hex_digits-digit :
    (decimal : ℕ → Option ℕ) (after : Bool) (acc : ℕ) (u : Bool) (d : ℕ) (s : Text)
    → d < 16
    → hex_digits decimal after acc (digit u d ∷ s) ≡ hex_digits decimal true (acc * 16 + d) s
unfolding hex_digits
hex_digits-digit decimal after acc u d s h = ground (arith, hex_digit-digit decimal u d h)

hex_digits_end : (decimal : ℕ → Option ℕ) (acc : ℕ) → hex_digits decimal true acc [] ≡ some acc
unfolding hex_digits
hex_digits_end decimal acc = refl

-- The four digits of a number below 2 ^ 16 are read as that number.
pub chr_int-hex4 :
    (decimal : ℕ → Option ℕ) (u : Cases) (n : ℕ) → n < 65536 → chr_int decimal (hex4 u n) ≡ some n
unfolding chr_int
chr_int-hex4 decimal u n h =
    rw
      (
        strip_by-four int_space _ _ _ _
            (int_space-digit _ (digit-IsDigit u.first (n / 4096) (omega arith)))
            (int_space-digit _ (digit-IsDigit u.fourth (n % 16) (omega arith))),
        hex_signed-digit decimal _ _ (digit-IsDigit u.first (n / 4096) (omega arith)),
        hex_body-digit decimal _ _ _ _ (digit-IsDigit u.second (n / 256 % 16) (omega arith)),
        hex_digits-digit decimal false 0 u.first (n / 4096) _ (omega arith),
        hex_digits-digit decimal true _ u.second (n / 256 % 16) _ (omega arith),
        hex_digits-digit decimal true _ u.third (n / 16 % 16) _ (omega arith),
        hex_digits-digit decimal true _ u.fourth (n % 16) _ (omega arith),
      )
      (hex_digits_end decimal _ ∙ ap some (omega arith))
