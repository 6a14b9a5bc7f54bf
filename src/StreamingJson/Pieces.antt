-- ===== src/StreamingJson/Pieces.antt =====
-- JSON strings as lists of pieces, each with its spelling and the character it stands for: what the
-- parser of agents/streaming_json.py is compared with.
use interview_coach.Base.{ℕ, ◌<◌, ◌≢◌, List, [], ◌∷◌, ◌++◌}
use interview_coach.Text.{Text}
use interview_coach.StreamingJson.Hex.{Cases, hex4}

-- The escapes of JSON that are a backslash and one character
pub data SimpleEscape : Type 0 where
  quote backslash slash backspace form_feed new_line carriage_return tab : SimpleEscape

abbrev pub letter : SimpleEscape → ℕ
letter quote = b'"'
letter backslash = b'\\'
letter slash = b'/'
letter backspace = b'b'
letter form_feed = b'f'
letter new_line = b'n'
letter carriage_return = b'r'
letter tab = b't'

-- The code points of the JSON standard
abbrev pub stands_for : SimpleEscape → ℕ
stands_for quote = 34
stands_for backslash = 92
stands_for slash = 47
stands_for backspace = 8
stands_for form_feed = 12
stands_for new_line = 10
stands_for carriage_return = 13
stands_for tab = 9

pub data Piece : Type 0 where
  -- any character but a quote and a backslash
  plain : ℕ → Piece
  -- a backslash and one character, as the standard has it
  simple : SimpleEscape → Piece
  -- a backslash and another character, which the standard has not
  other : ℕ → Piece
  -- a backslash, `u` and four digits of base 16
  unicode : Cases → ℕ → Piece

abbrev pub spell : Piece → Text
spell (plain c) = c ∷ []
spell (simple e) = b'\\' ∷ letter e ∷ []
spell (other c) = b'\\' ∷ c ∷ []
spell (unicode u n) = b'\\' ∷ b'u' ∷ hex4 u n

-- An escape with `u` stands for its code unit.
abbrev pub meaning : Piece → ℕ
meaning (plain c) = c
meaning (simple e) = stands_for e
meaning (other c) = c
meaning (unicode u n) = n

-- The character behind the backslash of an escape that the standard has not
pub record IsOther (c : ℕ) : Type 0 where
  pub not_u : c ≢ b'u'
  pub not_b : c ≢ b'b'
  pub not_f : c ≢ b'f'
  pub not_n : c ≢ b'n'
  pub not_r : c ≢ b'r'
  pub not_t : c ≢ b't'

abbrev pub IsPiece : Piece → Type 0
IsPiece (plain c) = (c ≢ b'"') × (c ≢ b'\\')
IsPiece (simple e) = Unit
IsPiece (other c) = IsOther c
IsPiece (unicode u n) = n < 65536

abbrev pub spelled : List Piece → Text
spelled [] = []
spelled (p ∷ ps) = spell p ++ spelled ps
