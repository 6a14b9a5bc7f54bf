-- ===== src/Rounds.antt =====
-- agents/rounds.py: the policies of the three round types, and the moves of the conductor.
-- `_coerce_action` of agents/nodes/question_generator.py maps the model's answer onto them.
pub mod Allowed
use interview_coach.Base.{
  ℕ, ◌+◌, Bool, true, false, ◌&&◌, Option, none, some, List, [], ◌∷◌, ◌++◌, map, String, leb,
  if◌then◌else◌,
}
use interview_coach.Text.{Text, codes, strip, text_eq}
use interview_coach.Db.Models.{MoveKind, probe, clarify, nudge}
use text.Mathlib.Text.{◌==◌ as str_eq}

-- Which corpus the focus picker draws from.
pub data FocusMode : Type 0 where
  experience_projects jd_skills behavioral_signals : FocusMode

pub data AnswerGrounding : Type 0 where
  rag_docs none_authoritative none_hypothetical : AnswerGrounding

-- The prompt constants of agents/prompts.py, by name.
pub data Prompt : Type 0 where
  question_experience_system question_technical_system question_behavioral_star_system : Prompt
  model_answer_system_prompt model_answer_technical_system : Prompt
  model_answer_behavioral_system : Prompt

pub record RoundStrategy : Type 0 where
  pub value : String
  pub focus : FocusMode
  pub question_system : Prompt
  pub qgen_grounding : Bool
  pub answer_grounding : AnswerGrounding
  pub model_answer_system : Prompt
  pub allow_nudge : Bool
  pub max_followups : ℕ

abbrev pub experience_deep_dive : RoundStrategy
experience_deep_dive = record {
  value = "experience_deep_dive";
  focus = experience_projects;
  question_system = question_experience_system;
  qgen_grounding = true;
  answer_grounding = rag_docs;
  model_answer_system = model_answer_system_prompt;
  allow_nudge = true;
  max_followups = 3;
}

abbrev pub technical_challenge : RoundStrategy
technical_challenge = record {
  value = "technical_challenge";
  focus = jd_skills;
  question_system = question_technical_system;
  qgen_grounding = false;
  answer_grounding = none_authoritative;
  model_answer_system = model_answer_technical_system;
  allow_nudge = true;
  max_followups = 3;
}

abbrev pub behavioral_star : RoundStrategy
behavioral_star = record {
  value = "behavioral_star";
  focus = behavioral_signals;
  question_system = question_behavioral_star_system;
  qgen_grounding = false;
  answer_grounding = none_hypothetical;
  model_answer_system = model_answer_behavioral_system;
  allow_nudge = false;
  max_followups = 1;
}

-- `none` is the `ValueError` of an unknown round type.
unfoldable pub get_round_strategy : String → Option RoundStrategy
get_round_strategy round_type =
    if str_eq round_type "experience_deep_dive"
    then some experience_deep_dive
    else if str_eq round_type "technical_challenge"
    then some technical_challenge
    else if str_eq round_type "behavioral_star"
    then some behavioral_star
    else none

-- The strings `"probe"`, `"clarify"`, `"nudge"` and `"advance"`.
pub data Action : Type 0 where
  move : MoveKind → Action
  advance : Action

unfoldable pub conductor_allowed_actions : RoundStrategy → List Action
conductor_allowed_actions strategy =
    move probe
    ∷ move clarify
    ∷ ((if strategy.allow_nudge then move nudge ∷ [] else []) ++ advance ∷ [])

-- `str.lower`, as far as it can make a word of the alphabet below: outside ASCII only the Kelvin
-- sign has an ASCII lower case, `k`, which no action contains.
lower : Text → Text
lower = map (λ c. if leb b'A' c && leb c b'Z' then c + 32 else c)

-- The action that a word names.
named : Text → Option Action
unfolding text_eq
named a =
    if text_eq a (codes "probe")
    then some (move probe)
    else if text_eq a (codes "clarify")
    then some (move clarify)
    else if text_eq a (codes "nudge")
    then some (move nudge)
    else if text_eq a (codes "advance")
    then some advance
    else none

unfoldable pub same_action : Action → Action → Bool
same_action (move probe) (move probe) = true
same_action (move clarify) (move clarify) = true
same_action (move nudge) (move nudge) = true
same_action advance advance = true
same_action _ _ = false

unfoldable pub allows : List Action → Action → Bool
unfolding same_action
allows [] a = false
allows (b ∷ bs) a = let rest = allows bs a in if same_action a b then true else rest

-- The word's action if the round allows it, and `probe` if not.
unfoldable pub settled_action : Option Action → List Action → Action
unfolding allows
settled_action none allowed_actions = move probe
settled_action (some a) allowed_actions = if allows allowed_actions a then a else move probe

-- The argument is `str(raw or "")`.
unfoldable pub coerce_action : Text → List Action → Action
unfolding lower named strip
coerce_action raw allowed_actions = settled_action (named (lower (strip raw))) allowed_actions
