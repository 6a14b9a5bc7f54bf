-- ===== src/StreamingJson/Chunks.antt =====
-- The parser on a text that is cut into chunks.
use mathlib.Core.Path.{fun_ext}
use interview_coach.Base.{◌≡◌, refl, sym, ap, ◌∙◌, List, [], ◌∷◌, ◌++◌, append_assoc}
use interview_coach.Text.{Text, join}
use interview_coach.StreamingJson.Automaton.{
  Machine, start, Step, raise, emit, go, Event, Python, step,
}
use interview_coach.StreamingJson.{
  Outcome, raised, running, Run, proceed, resume, and_then, feed, feed_chunks, finish,
  stream_json_object,
}

module _ {V A B : Type 0} where
  resume-append :
      (evs fs : List (Event V)) (o : Outcome A) (k : A → Run V B)
      → resume (evs ++ fs) o k
        ≡ record { events = evs ++ (resume fs o k).events; outcome = (resume fs o k).outcome }
  resume-append evs fs (raised e) k = refl
  resume-append evs fs (running a) k =
      λ i. record { events = append_assoc evs fs (k a).events i; outcome = (k a).outcome }

  and_then-proceed :
      (st : Step V) (k : Machine → Run V A) (f : A → Run V B)
      → and_then (proceed st k) f ≡ proceed st (λ m. and_then (k m) f)
  and_then-proceed (raise e) k f = refl
  and_then-proceed (emit ev m) k f = resume-append (ev ∷ []) (k m).events (k m).outcome f
  and_then-proceed (go m) k f = refl

and_then_assoc :
    {V A B C : Type 0} (r : Run V A) (f : A → Run V B) (g : B → Run V C)
    → and_then (and_then r f) g ≡ and_then r (λ a. and_then (f a) g)
and_then_assoc {V} {A} {B} {C} r f g = by_outcome r.events r.outcome
  where
    by_outcome :
        (evs : List (Event V)) (o : Outcome A)
        → and_then (resume evs o f) g ≡ resume evs o (λ a. and_then (f a) g)
    by_outcome evs (raised e) = refl
    by_outcome evs (running a) = resume-append evs (f a).events (f a).outcome g

module _ {V : Type 0} (py : Python V) (strings scalars : List Text) where
  pub feed-append :
      (m : Machine) (s t : Text)
      → feed py strings scalars m (s ++ t)
        ≡ and_then (feed py strings scalars m s) (λ m'. feed py strings scalars m' t)
  unfolding feed
  feed-append m [] t = refl
  feed-append m (c ∷ s) t =
      ap (proceed (step py strings scalars m c)) (fun_ext (λ m'. feed-append m' s t))
      ∙ sym (and_then-proceed (step py strings scalars m c) _ _)

  feed_chunks-join :
      (m : Machine) (cs : List Text)
      → feed_chunks py strings scalars m cs ≡ feed py strings scalars m (join cs)
  unfolding feed_chunks
  feed_chunks-join m [] = unfold feed in refl
  feed_chunks-join m (c ∷ cs) =
      ap (and_then (feed py strings scalars m c)) (fun_ext (λ m'. feed_chunks-join m' cs))
      ∙ sym (feed-append m c (join cs))

  -- The run is a function of the text alone.
  pub stream_json_object-join :
      (cs : List Text)
      → stream_json_object py strings scalars cs
        ≡ and_then
            (feed py strings scalars start (join cs))
            (λ _. finish py strings scalars (join cs))
  unfolding stream_json_object
  stream_json_object-join cs = rw (feed_chunks-join start cs)

  -- However the same text is cut into chunks, also inside an escape, the parser yields the same
  -- pairs and ends or raises alike.
  pub stream_json_object_chunking :
      (cs ds : List Text)
      → join cs ≡ join ds
      → stream_json_object py strings scalars cs ≡ stream_json_object py strings scalars ds
  stream_json_object_chunking cs ds e =
      stream_json_object-join cs
      ∙ ap (λ t. and_then (feed py strings scalars start t) (λ _. finish py strings scalars t)) e
      ∙ sym (stream_json_object-join ds)
