-- ===== src/Interview/Route/Refusals.antt =====
-- The errors of `session_message` of api/sessions/routes.py, as a table.
use interview_coach.Base.{
  ℕ, ◌≡◌, refl, Bool, true, false, ◌&&◌, ◌||◌, Option, none, some, [], ◌∷◌, if◌then◌else◌,
}
use interview_coach.Text.{Text}
use interview_coach.Db.Models.{SessionRow, ThreadRow, Db}
use interview_coach.Db.Rows.{is_active}
use interview_coach.Db.Threads.{get_session, get_open_thread}
use interview_coach.Interview.State.{InterviewState, Env, Supply}
use interview_coach.Interview.Graph.{Pause, awaiting, ended, crashed, running}
use interview_coach.Interview.Route.{
  HttpError, not_found, conflict_status, empty_message, Response, refused, streamed, message_of,
  start_adopted, start_fresh, resume_paused, resume_or_start, active_session, session_message,
}

abbrev pub error_of : {V : Type 0} → Response V → Option HttpError
error_of (refused e) = some e
error_of (streamed r) = none

-- Parked on the interrupt.
abbrev pub paused : {V : Type 0} → Option (Pause V) → Bool
paused none = false
paused (some (awaiting st)) = true
paused (some (ended st)) = false
paused (some (crashed n st e)) = false
paused (some (running n st)) = false

abbrev pub silent : Text → Bool
silent [] = true
silent (c ∷ cs) = false

abbrev pub opened {ℓ} : {A : Type ℓ} → Option A → Bool
opened none = false
opened (some a) = true

-- An answer is missing where one is waited for.
abbrev pub unanswered : Bool → Bool → Option HttpError
unanswered empty waiting = if empty && waiting then some empty_message else none

abbrev pub table :
    {V : Type 0} → Db V → Option (Pause V) → Text → Option SessionRow → Option HttpError
table db checkpoint msg none = some not_found
table db checkpoint msg (some sess) =
    if is_active sess.status
    then unanswered (silent msg) (paused checkpoint || opened (get_open_thread db sess.id))
    else some (conflict_status sess.status)

module _ {V : Type 0} (env : Env V) (supply : ℕ → Supply) (db : Db V) where
  start_adopted-error :
      (o : Option ThreadRow) (msg : Text) (st : InterviewState V)
      → error_of (start_adopted env supply o msg db st) ≡ unanswered (silent msg) (opened o)
  unfolding start_adopted
  start_adopted-error none [] st = refl
  start_adopted-error none (c ∷ msg) st = refl
  start_adopted-error (some t) [] st = refl
  start_adopted-error (some t) (c ∷ msg) st = refl

  start_fresh-error :
      (sess : SessionRow) (checkpoint : Option (Pause V)) (msg : Text)
      → error_of (start_fresh env supply sess checkpoint msg db)
        ≡ unanswered (silent msg) (opened (get_open_thread db sess.id))
  unfolding start_fresh
  start_fresh-error sess checkpoint msg = start_adopted-error (get_open_thread db sess.id) msg _

  resume_or_start-error :
      (sess : SessionRow) (checkpoint : Option (Pause V)) (msg : Text)
      → error_of (resume_or_start env supply sess checkpoint msg db)
        ≡ unanswered (silent msg) (paused checkpoint || opened (get_open_thread db sess.id))
  unfolding resume_or_start resume_paused
  resume_or_start-error sess none msg = start_fresh-error sess none msg
  resume_or_start-error sess (some (awaiting st)) [] = refl
  resume_or_start-error sess (some (awaiting st)) (c ∷ msg) = refl
  resume_or_start-error sess (some (ended st)) msg = start_fresh-error sess _ msg
  resume_or_start-error sess (some (crashed n st e)) msg = start_fresh-error sess _ msg
  resume_or_start-error sess (some (running n st)) msg = start_fresh-error sess _ msg

  found-error :
      (checkpoint : Option (Pause V)) (message : Option Text) (sess : SessionRow) (b : Bool)
      → error_of (
          if b
          then resume_or_start env supply sess checkpoint (message_of env message) db
          else refused (conflict_status sess.status))
        ≡ (if b
            then unanswered
                (silent (message_of env message))
                (paused checkpoint || opened (get_open_thread db sess.id))
            else some (conflict_status sess.status))
  found-error checkpoint message sess true = resume_or_start-error sess checkpoint _
  found-error checkpoint message sess false = refl

  -- The endpoint refuses with 404 a session that is not the user's, else with 409 one that is not
  -- active, else with 400 an empty message where the graph is paused or a thread is open. Nothing
  -- else is refused.
  pub session_message-error :
      (session_id user_id : ℕ) (checkpoint : Option (Pause V)) (message : Option Text)
      → error_of (session_message env supply session_id user_id checkpoint message db)
        ≡ table db checkpoint (message_of env message) (get_session db session_id user_id)
  unfolding session_message active_session
  session_message-error session_id user_id checkpoint message =
      elim (get_session db session_id user_id)
        as (λ o.
          error_of (elim o [
            | none ↦ refused not_found
            | some sess ↦ active_session env supply sess checkpoint message db
          ])
          ≡ table db checkpoint (message_of env message) o) [
            | none ↦ refl
            | some sess ↦ found-error checkpoint message sess (is_active sess.status)
          ]
