-- ===== src/Tests/Parsing.antt =====
-- The streaming parser at work.
use interview_coach.Base.{◌≡◌, refl, true, false, List, [], ◌∷◌, ◌++◌, map, All, arith}
use interview_coach.Text.{codes, isspace, member}
use interview_coach.StreamingJson.Automaton.{Machine, start, obj, field_done, chunk}
use interview_coach.StreamingJson.{feed, after, stream_json_object}
use interview_coach.StreamingJson.Chunks.{stream_json_object_chunking}
use interview_coach.StreamingJson.Pieces.{
  Piece, plain, simple, new_line, unicode, IsPiece, meaning, spelled,
}
use interview_coach.StreamingJson.Strings.{field_text, after_field, feed_string_field}
use interview_coach.Tests.Toy.{json}

-- The two cuts meet inside an escape.
stream_json_object_chunking_example :
    stream_json_object json (codes "a" ∷ []) [] (codes "{\"a\": \"x\\u00" ∷ codes "e9\"}" ∷ [])
    ≡ stream_json_object json (codes "a" ∷ []) [] (codes "{\"a\": \"x" ∷ codes "\\u00e9\"}" ∷ [])
stream_json_object_chunking_example =
    stream_json_object_chunking json (codes "a" ∷ []) []
      (codes "{\"a\": \"x\\u00" ∷ codes "e9\"}" ∷ [])
      (codes "{\"a\": \"x" ∷ codes "\\u00e9\"}" ∷ []) refl

abbrev between : Machine
between = record start { state = obj }

-- A character, a line end, and an escape in mixed case
abbrev some_pieces : List Piece
some_pieces =
    plain b'x'
    ∷ simple new_line
    ∷ unicode (record { first = true; second = false; third = true; fourth = false }) 44015
    ∷ []

some_pieces-IsPiece : All IsPiece some_pieces
some_pieces-IsPiece = ((λ e. ground arith, λ e. ground arith), (tt, (ground arith, tt)))

spelled-some_pieces : spelled some_pieces ≡ codes "x\\n\\uAbEf"
spelled-some_pieces = refl

feed_string_field_example :
    (feed json (codes "a" ∷ []) [] between (
        field_text json
          (codes "a" ∷ [])
          []
          (codes "a")
          (codes " ")
          (codes " ")
          some_pieces
          (codes "}"))
      ≡ after
          (map (λ p. chunk (codes "a") (meaning p)) some_pieces ++ field_done (codes "a") ∷ [])
          (feed json
            (codes "a" ∷ [])
            []
            (after_field json (codes "a" ∷ []) [] between (codes "a") some_pieces)
            (codes "}")))
    × ((after_field json (codes "a" ∷ []) [] between (codes "a") some_pieces).state ≡ obj)
unfolding member isspace
feed_string_field_example =
    feed_string_field json (codes "a" ∷ []) [] between (codes "a") (codes " ") (codes " ")
      some_pieces (codes "}") refl refl ((λ e. ground arith, λ e. ground arith), tt) (refl, tt)
      (refl, tt) some_pieces-IsPiece
