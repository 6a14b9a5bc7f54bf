-- ===== src/StreamingJson/Strings.antt =====
-- What the parser yields for a string value that it streams, against an independent description of
-- JSON strings.
use interview_coach.Base.{
  ℕ, ◌≡◌, ◌⊎◌, inl, inr, refl, sym, ◌∙◌, ap, true, false, List, [], ◌∷◌, ◌++◌, append_assoc,
  append-nil, All, map, arith,
}
use interview_coach.Text.{Text, isspace, member}
use interview_coach.StreamingJson.Unescape.{unescape_simple}
use interview_coach.StreamingJson.Pieces.{
  SimpleEscape, quote, backslash, slash, backspace, form_feed, new_line, carriage_return, tab,
  letter, Piece, plain, simple, other, unicode, spell, meaning, IsOther, IsPiece, spelled,
}
use interview_coach.StreamingJson.Hex.{Cases, hex4, chr_int-hex4}
use interview_coach.StreamingJson.Automaton.{
  Machine, Event, chunk, field_done, key, after_key, before_val, string_val, obj, Python, step,
}
use interview_coach.StreamingJson.{Run, after, feed}

after-append :
    {V A : Type 0} (evs fs : List (Event V)) (r : Run V A)
    → after evs (after fs r) ≡ after (evs ++ fs) r
after-append evs fs r =
    λ i. record { events = sym (append_assoc evs fs r.events) i; outcome = r.outcome }

abbrev inside : Machine → Text → Machine
inside m acc = record m {
  state = string_val;
  in_escape = false;
  unicode_pending = 0;
  unicode_acc = acc;
}

-- `unicode_acc` keeps the digits of the last escape.
abbrev pub digits_after : Text → List Piece → Text
digits_after acc [] = acc
digits_after acc (unicode u n ∷ ps) = digits_after (hex4 u n) ps
digits_after acc (plain _ ∷ ps) = digits_after acc ps
digits_after acc (simple _ ∷ ps) = digits_after acc ps
digits_after acc (other _ ∷ ps) = digits_after acc ps

module _ {V : Type 0} (py : Python V) (strings scalars : List Text) (m : Machine) where
  abbrev chunk_of : Piece → Event V
  chunk_of p = chunk m.active_key (meaning p)

  feed-plain :
      (c : ℕ) (acc rest : Text)
      → IsPiece (plain c)
      → feed py strings scalars (inside m acc) (c ∷ rest)
        ≡ after (chunk_of (plain c) ∷ []) (feed py strings scalars (inside m acc) rest)
  unfolding feed step
  feed-plain c acc rest h = ground arith

  feed-simple :
      (e : SimpleEscape) (acc rest : Text)
      → feed py strings scalars (inside m acc) (b'\\' ∷ letter e ∷ rest)
        ≡ after (chunk_of (simple e) ∷ []) (feed py strings scalars (inside m acc) rest)
  unfolding feed step unescape_simple
  feed-simple quote acc rest = refl
  feed-simple backslash acc rest = refl
  feed-simple slash acc rest = refl
  feed-simple backspace acc rest = refl
  feed-simple form_feed acc rest = refl
  feed-simple new_line acc rest = refl
  feed-simple carriage_return acc rest = refl
  feed-simple tab acc rest = refl

  feed-other :
      (c : ℕ) (acc rest : Text)
      → IsOther c
      → feed py strings scalars (inside m acc) (b'\\' ∷ c ∷ rest)
        ≡ after (chunk_of (other c) ∷ []) (feed py strings scalars (inside m acc) rest)
  unfolding feed step unescape_simple
  feed-other c acc rest h = ground (arith, h.not_u, h.not_b, h.not_f, h.not_n, h.not_r, h.not_t)

  feed-unicode :
      (u : Cases) (n : ℕ) (acc rest : Text)
      → IsPiece (unicode u n)
      → feed py strings scalars (inside m acc) (spell (unicode u n) ++ rest)
        ≡ after (chunk_of (unicode u n) ∷ []) (feed py strings scalars (inside m (hex4 u n)) rest)
  unfolding feed step
  feed-unicode u n acc rest h = rw (chr_int-hex4 py.decimal u n h)

  feed-spelled :
      (ps : List Piece) (acc rest : Text)
      → All IsPiece ps
      → feed py strings scalars (inside m acc) (spelled ps ++ rest)
        ≡ after (map chunk_of ps) (feed py strings scalars (inside m (digits_after acc ps)) rest)
  feed-spelled [] acc rest h = refl
  feed-spelled (plain c ∷ ps) acc rest (p, h) =
      feed-plain c acc _ p ∙ ap (after (chunk_of (plain c) ∷ [])) (feed-spelled ps acc rest h)
  feed-spelled (simple e ∷ ps) acc rest (p, h) =
      feed-simple e acc _ ∙ ap (after (chunk_of (simple e) ∷ [])) (feed-spelled ps acc rest h)
  feed-spelled (other c ∷ ps) acc rest (p, h) =
      feed-other c acc _ p ∙ ap (after (chunk_of (other c) ∷ [])) (feed-spelled ps acc rest h)
  feed-spelled (unicode u n ∷ ps) acc rest (p, h) =
      feed-unicode u n acc _ p
      ∙ ap (after (chunk_of (unicode u n) ∷ [])) (feed-spelled ps (hex4 u n) rest h)

  feed_close :
      (acc rest : Text)
      → feed py strings scalars (inside m acc) (b'"' ∷ rest)
        ≡ after
            (field_done m.active_key ∷ [])
            (feed py strings scalars (record (inside m acc) { state = obj }) rest)
  unfolding feed step
  feed_close acc rest = refl

  feed_open :
      (rest : Text)
      → m.state ≡ before_val
      → member m.active_key strings ≡ true
      → feed py strings scalars m (b'"' ∷ rest) ≡ feed py strings scalars (inside m []) rest
  unfolding feed step isspace
  feed_open rest s t = ground arith

  -- White space before the colon and before the value
  feed-spaces :
      (sp rest : Text)
      → (m.state ≡ after_key) ⊎ (m.state ≡ before_val)
      → All (λ c. isspace c ≡ true) sp
      → feed py strings scalars m (sp ++ rest) ≡ feed py strings scalars m rest
  unfolding feed step
  feed-spaces [] rest s h = refl
  feed-spaces (c ∷ sp) rest (inl s) (h, hs) = ground (arith, s, h, feed-spaces sp rest (inl s) hs)
  feed-spaces (c ∷ sp) rest (inr s) (h, hs) = ground (arith, s, h, feed-spaces sp rest (inr s) hs)

  feed_string_value :
      (ps : List Piece) (rest : Text)
      → m.state ≡ before_val
      → member m.active_key strings ≡ true
      → All IsPiece ps
      → feed py strings scalars m (b'"' ∷ (spelled ps ++ b'"' ∷ rest))
        ≡ after
            (map chunk_of ps ++ field_done m.active_key ∷ [])
            (feed py strings scalars (record (inside m (digits_after [] ps)) { state = obj }) rest)
  feed_string_value ps rest s t h =
      feed_open (spelled ps ++ b'"' ∷ rest) s t
      ∙ feed-spelled ps [] (b'"' ∷ rest) h
      ∙ ap (after (map chunk_of ps)) (feed_close (digits_after [] ps) rest)
      ∙ after-append (map chunk_of ps) (field_done m.active_key ∷ []) _

abbrev reading : Machine → Text → Machine
reading m kc = record m { state = key; in_escape = false; key_chars = kc }

abbrev key_ended : Machine → Text → Machine
key_ended m kc = record m { state = after_key; in_escape = false; key_chars = kc; active_key = kc }

abbrev key_read : Machine → Text → Machine
key_read m kc = record m { state = before_val; in_escape = false; key_chars = kc; active_key = kc }

module _ {V : Type 0} (py : Python V) (strings scalars : List Text) where
  feed-key_char :
      (m : Machine) (kc : Text) (c : ℕ) (rest : Text)
      → IsPiece (plain c)
      → feed py strings scalars (reading m kc) (c ∷ rest)
        ≡ feed py strings scalars (reading m (kc ++ c ∷ [])) rest
  unfolding feed step
  feed-key_char m kc c rest h = ground arith

  feed_key_end :
      (m : Machine) (kc rest : Text)
      → feed py strings scalars (reading m kc) (b'"' ∷ rest)
        ≡ feed py strings scalars (key_ended m kc) rest
  unfolding feed step
  feed_key_end m kc rest = refl

  feed_colon :
      (m : Machine) (kc rest : Text)
      → feed py strings scalars (key_ended m kc) (b':' ∷ rest)
        ≡ feed py strings scalars (key_read m kc) rest
  unfolding feed step isspace
  feed_colon m kc rest = refl

  feed-key_chars :
      (m : Machine) (kc k rest : Text)
      → All (λ c. IsPiece (plain c)) k
      → feed py strings scalars (reading m kc) (k ++ b'"' ∷ rest)
        ≡ feed py strings scalars (key_ended m (kc ++ k)) rest
  feed-key_chars m kc [] rest h = rw append-nil (feed_key_end m kc rest)
  feed-key_chars m kc (c ∷ k) rest (p, h) =
      feed-key_char m kc c (k ++ b'"' ∷ rest) p
      ∙ feed-key_chars m (kc ++ c ∷ []) k rest h
      ∙ ap (λ t. feed py strings scalars (key_ended m t) rest) (append_assoc kc (c ∷ []) k)

  feed_key_open :
      (m : Machine) (rest : Text)
      → m.state ≡ obj
      → feed py strings scalars m (b'"' ∷ rest) ≡ feed py strings scalars (reading m []) rest
  unfolding feed step isspace
  feed_key_open m rest s = ground arith

  -- The machine after the field `"k": "ps"`, read from the machine `m` between two fields.
  pub after_field : Machine → Text → List Piece → Machine
  after_field m k ps = record m {
    state = obj;
    key_chars = k;
    active_key = k;
    in_escape = false;
    unicode_pending = 0;
    unicode_acc = digits_after [] ps;
  }

  -- `"k" : "ps"`, with white space around the colon
  abbrev pub field_text : Text → Text → Text → List Piece → Text → Text
  field_text k sp sp' ps rest =
      b'"' ∷ (k ++ b'"' ∷ (sp ++ b':' ∷ (sp' ++ b'"' ∷ (spelled ps ++ b'"' ∷ rest))))

  -- A field whose key is streamed and is written without escapes, read between two fields with any
  -- text behind it, yields one chunk for each piece of its value, in order, then the `done` pair of
  -- the key, and the parser is then between two fields again. The chunk is the character itself, the
  -- one that the JSON standard gives a simple escape, the character behind the backslash of an escape
  -- that the standard has not, and the code unit of an escape with `u` in digits of either case, so
  -- that the halves of a surrogate pair are two chunks. White space may stand around the colon.
  pub feed_string_field :
      (m : Machine) (k sp sp' : Text) (ps : List Piece) (rest : Text)
      → m.state ≡ obj
      → member k strings ≡ true
      → All (λ c. IsPiece (plain c)) k
      → All (λ c. isspace c ≡ true) sp
      → All (λ c. isspace c ≡ true) sp'
      → All IsPiece ps
      → (feed py strings scalars m (field_text k sp sp' ps rest)
          ≡ after
              (map (λ p. chunk k (meaning p)) ps ++ field_done k ∷ [])
              (feed py strings scalars (after_field m k ps) rest))
        × ((after_field m k ps).state ≡ obj)
  unfolding after_field
  feed_string_field m k sp sp' ps rest s t hk hsp hsp' hps =
      let value = b'"' ∷ (spelled ps ++ b'"' ∷ rest) in
      (
        feed_key_open m (k ++ b'"' ∷ (sp ++ b':' ∷ (sp' ++ value))) s
            ∙ feed-key_chars m [] k (sp ++ b':' ∷ (sp' ++ value)) hk
            ∙ feed-spaces py strings scalars (key_ended m k) sp (b':' ∷ (sp' ++ value)) (inl refl)
                hsp
            ∙ feed_colon m k (sp' ++ value)
            ∙ feed-spaces py strings scalars (key_read m k) sp' value (inr refl) hsp'
            ∙ feed_string_value py strings scalars (key_read m k) ps rest refl t hps,
        refl,
      )
