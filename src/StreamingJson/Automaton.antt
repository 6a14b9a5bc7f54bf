-- ===== src/StreamingJson/Automaton.antt =====
-- The state machine of `stream_json_object`: its variables as a record, and one function for each
-- branch of the `if state == …` chain. A character raises, yields one event, or goes on silently.
use interview_coach.Base.{
  ℕ, zero, suc, Bool, true, false, ◌||◌, Option, none, some, List, [], ◌∷◌, ◌++◌, ◌==◌,
  if◌then◌else◌,
}
use interview_coach.Text.{Text, isspace, strip, member}
use interview_coach.StreamingJson.Unescape.{unescape_simple, chr_int}

-- The string constants `_PRE` to `_DONE_STREAMING`.
pub data Phase : Type 0 where
  pre obj key after_key before_val string_val scalar_val skip_val done_streaming : Phase

-- `skip_depth`: its sentinel -1, or the nesting depth.
pub data SkipDepth : Type 0 where
  in_string : SkipDepth
  level : ℕ → SkipDepth

pub record Machine : Type 0 where
  pub state : Phase
  pub key_chars : Text
  pub active_key : Text
  pub scalar_buf : Text
  pub skip_depth : SkipDepth
  pub in_escape : Bool
  pub unicode_pending : ℕ
  pub unicode_acc : Text

unfoldable pub start : Machine
start = record {
  state = pre;
  key_chars = [];
  active_key = [];
  scalar_buf = [];
  skip_depth = level 0;
  in_escape = false;
  unicode_pending = 0;
  unicode_acc = [];
}

-- The message of a `StreamingJsonError`, with the values that it shows.
pub data StreamError : Type 0 where
  not_object : ℕ → StreamError
  bad_scalar : Text → Text → StreamError
  bad_unicode : Text → Text → StreamError
  malformed : StreamError
  not_dict : StreamError

-- A yielded pair: `("<key>_chunk", ch)`, `("<key>_done", None)`, `("<key>", value)`, `("done", v)`.
pub data Event {ℓ} (V : Type ℓ) : Type ℓ where
  chunk : Text → ℕ → Event V
  field_done : Text → Event V
  scalar : Text → V → Event V
  done : V → Event V

pub data Step {ℓ} (V : Type ℓ) : Type ℓ where
  raise : StreamError → Step V
  emit : Event V → Machine → Step V
  go : Machine → Step V

-- What the parser takes from Python: `json.loads` (`none` is a `JSONDecodeError`), `isinstance(v,
-- dict)`, and the table of decimal digits outside ASCII.
pub record Python {ℓ} (V : Type ℓ) : Type ℓ where
  pub loads : Text → Option V
  pub is_dict : V → Bool
  pub decimal : ℕ → Option ℕ

module _ {ℓ} {V : Type ℓ} where
  on_pre : Machine → ℕ → Step V
  on_pre m ch =
      if isspace ch
      then go m
      else if ch == b'{'
      then go (record m { state = obj })
      else raise (not_object ch)

  on_obj : Machine → ℕ → Step V
  on_obj m ch =
      if isspace ch || ch == b','
      then go m
      else if ch == b'}'
      then go (record m { state = done_streaming })
      else if ch == b'"'
      then go (record m { state = key; key_chars = []; in_escape = false })
      else go m

  on_key : Machine → ℕ → Step V
  on_key m ch =
      if m.in_escape
      then go (record m { key_chars = m.key_chars ++ ch ∷ []; in_escape = false })
      else if ch == b'\\'
      then go (record m { in_escape = true })
      else if ch == b'"'
      then go (record m { active_key = m.key_chars; state = after_key })
      else go (record m { key_chars = m.key_chars ++ ch ∷ [] })

  on_after_key : Machine → ℕ → Step V
  on_after_key m ch =
      if isspace ch then go m else if ch == b':' then go (record m { state = before_val }) else go m

  -- `skip_depth == 0`
  skip_flat : Machine → ℕ → Step V
  skip_flat m ch =
      if ch == b'"'
      then go (record m { skip_depth = in_string; in_escape = false })
      else if ch == b'{' || ch == b'['
      then go (record m { skip_depth = level 1 })
      else if ch == b','
      then go (record m { state = obj })
      else if ch == b'}'
      then go (record m { state = done_streaming })
      else go m

  -- `skip_depth == -1`
  skip_string : Machine → ℕ → Step V
  skip_string m ch =
      if m.in_escape
      then go (record m { in_escape = false })
      else if ch == b'\\'
      then go (record m { in_escape = true })
      else if ch == b'"'
      then go (record m { skip_depth = level 0; state = obj })
      else go m

  -- `skip_depth -= 1`, from a depth of `d + 1`
  leave_level : Machine → ℕ → Step V
  leave_level m zero = go (record m { skip_depth = level 0; state = obj })
  leave_level m (suc d) = go (record m { skip_depth = level (suc d) })

  skip_nested : Machine → ℕ → ℕ → Step V
  unfolding leave_level
  skip_nested m d ch =
      if ch == b'{' || ch == b'['
      then go (record m { skip_depth = level (suc (suc d)) })
      else if ch == b'}' || ch == b']'
      then leave_level m d
      else go m

  skip_at : SkipDepth → Machine → ℕ → Step V
  unfolding skip_flat skip_string skip_nested
  skip_at in_string m ch = skip_string m ch
  skip_at (level zero) m ch = skip_flat m ch
  skip_at (level (suc d)) m ch = skip_nested m d ch

  on_skip_val : Machine → ℕ → Step V
  unfolding skip_at
  on_skip_val m ch = skip_at m.skip_depth m ch

  on_before_val : List Text → List Text → Machine → ℕ → Step V
  unfolding on_skip_val
  on_before_val strings scalars m ch =
      let skip = record m { state = skip_val; skip_depth = level 0 } in
      if isspace ch
      then go m
      else if member m.active_key strings
      then (if ch == b'"'
          then go (record m {
            state = string_val;
            in_escape = false;
            unicode_pending = 0;
            unicode_acc = [];
          })
          else on_skip_val skip ch)
      else if member m.active_key scalars
      then go (record m { state = scalar_val; scalar_buf = ch ∷ [] })
      else on_skip_val skip ch

  scalar_closed : Machine → ℕ → Option V → Step V
  scalar_closed m ch none = raise (bad_scalar m.active_key (strip m.scalar_buf))
  scalar_closed m ch (some v) =
      emit (scalar m.active_key v) (record m { state = if ch == b'}' then done_streaming else obj })

  on_scalar_val : Python V → Machine → ℕ → Step V
  unfolding scalar_closed
  on_scalar_val py m ch =
      if ch == b',' || ch == b'}' || isspace ch
      then scalar_closed m ch (py.loads (strip m.scalar_buf))
      else go (record m { scalar_buf = m.scalar_buf ++ ch ∷ [] })

  unicode_closed : Machine → Text → Option ℕ → Step V
  unicode_closed m acc none = raise (bad_unicode m.active_key acc)
  unicode_closed m acc (some c) =
      emit (chunk m.active_key c) (record m { unicode_pending = 0; unicode_acc = acc })

  -- The last pending digit decodes the escape.
  unicode_digit : Python V → ℕ → Machine → ℕ → Step V
  unfolding unicode_closed
  unicode_digit py zero m ch =
      let acc = m.unicode_acc ++ ch ∷ [] in unicode_closed m acc (chr_int py.decimal acc)
  unicode_digit py (suc n) m ch =
      go (record m { unicode_pending = suc n; unicode_acc = m.unicode_acc ++ ch ∷ [] })

  string_char : Machine → ℕ → Step V
  string_char m ch =
      if m.in_escape
      then (if ch == b'u'
          then go (record m { in_escape = false; unicode_pending = 4; unicode_acc = [] })
          else emit (chunk m.active_key (unescape_simple ch)) (record m { in_escape = false }))
      else if ch == b'\\'
      then go (record m { in_escape = true })
      else if ch == b'"'
      then emit (field_done m.active_key) (record m { state = obj })
      else emit (chunk m.active_key ch) m

  -- `if unicode_pending > 0: …`
  string_at : Python V → ℕ → Machine → ℕ → Step V
  unfolding string_char unicode_digit
  string_at py zero m ch = string_char m ch
  string_at py (suc n) m ch = unicode_digit py n m ch

  on_string_val : Python V → Machine → ℕ → Step V
  unfolding string_at
  on_string_val py m ch = string_at py m.unicode_pending m ch

  -- The body of the inner loop. The tests on `state` exclude one another.
  dispatch : Python V → List Text → List Text → Phase → Machine → ℕ → Step V
  unfolding on_pre on_obj on_key on_after_key on_before_val on_skip_val on_scalar_val on_string_val
  dispatch py strings scalars pre m ch = on_pre m ch
  dispatch py strings scalars done_streaming m ch = go m
  dispatch py strings scalars obj m ch = on_obj m ch
  dispatch py strings scalars key m ch = on_key m ch
  dispatch py strings scalars after_key m ch = on_after_key m ch
  dispatch py strings scalars before_val m ch = on_before_val strings scalars m ch
  dispatch py strings scalars skip_val m ch = on_skip_val m ch
  dispatch py strings scalars scalar_val m ch = on_scalar_val py m ch
  dispatch py strings scalars string_val m ch = on_string_val py m ch

  unfoldable pub step : Python V → List Text → List Text → Machine → ℕ → Step V
  unfolding dispatch
  step py strings scalars m ch = dispatch py strings scalars m.state m ch
