-- ===== src/Text.antt =====
-- Text as the list of its code points, and the character tests of Python's `str` that the parser
-- and the picker use.
use Prim.Native.Char.{code}
use Prim.Native.String.{String}
use interview_coach.Base.{
  ℕ, ◌≡◌, refl, Bool, true, false, ◌&&◌, ◌||◌, List, [], ◌∷◌, ◌++◌, arith, leb, ◌==◌, if◌then◌else◌,
}

abbrev pub Text : Type 0
Text = List ℕ

-- The code points of a literal.
abbrev pub codes : String → Text
codes String.[] = []
codes (String.◌∷◌ c s) = code c ∷ codes s

-- `"".join(parts)`
abbrev pub join : List Text → Text
join [] = []
join (t ∷ ts) = t ++ join ts

-- `str.isspace` on one character: the white space of the Unicode table.
unfoldable pub isspace : ℕ → Bool
isspace c =
    leb 9 c && leb c 13
    || leb 28 c && leb c 32
    || c == 133
    || c == 160
    || c == 5760
    || leb 8192 c && leb c 8202
    || leb 8232 c && leb c 8233
    || c == 8239
    || c == 8287
    || c == 12288

-- `strip` of the characters that pass a test.
module _ (space : ℕ → Bool) where
  lstrip_by : Text → Text
  lstrip_by [] = []
  lstrip_by (c ∷ s) = let rest = lstrip_by s in if space c then rest else c ∷ s

  rstrip_by : Text → Text
  rstrip_by [] = []
  rstrip_by (c ∷ s) = elim (rstrip_by s) [ [] ↦ if space c then [] else c ∷ [] | d ∷ r ↦ c ∷ d ∷ r ]

  unfoldable pub strip_by : Text → Text
  unfolding lstrip_by rstrip_by
  strip_by s = rstrip_by (lstrip_by s)

  -- Only the two ends are looked at.
  pub strip_by-four :
      (a b c d : ℕ)
      → space a ≡ false
      → space d ≡ false
      → strip_by (a ∷ b ∷ c ∷ d ∷ []) ≡ a ∷ b ∷ c ∷ d ∷ []
  unfolding strip_by
  strip_by-four a b c d first last = ground arith

-- `str.strip`
unfoldable pub strip : Text → Text
unfolding strip_by isspace
strip = strip_by isspace

-- `==` of two texts
unfoldable pub text_eq : Text → Text → Bool
text_eq [] [] = true
text_eq [] (_ ∷ _) = false
text_eq (_ ∷ _) [] = false
text_eq (c ∷ s) (d ∷ t) = c == d && text_eq s t

pub text_eq_self : (s : Text) → text_eq s s ≡ true
unfolding text_eq
text_eq_self [] = refl
text_eq_self (c ∷ s) = ground (arith, text_eq_self s)

pub text_eq_sound : (s t : Text) → text_eq s t ≡ true → s ≡ t
unfolding text_eq
text_eq_sound [] [] h = refl
text_eq_sound (c ∷ s) (d ∷ t) h = ground (arith, text_eq_sound s t)
text_eq_sound [] (_ ∷ _) h = ground arith
text_eq_sound (_ ∷ _) [] h = ground arith

-- `x in xs` on a set of texts
unfoldable pub member : Text → List Text → Bool
unfolding text_eq
member s [] = false
member s (t ∷ ts) = text_eq s t || member s ts
