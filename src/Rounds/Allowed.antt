-- ===== src/Rounds/Allowed.antt =====
-- The action of the conductor against the actions of its round.
use interview_coach.Base.{
  ◌≡◌, ap, ◌≢◌, refl, true, false, Option, none, some, List, if◌then◌else◌, Bool-cases, inl, inr,
  arith,
}
use interview_coach.Text.{Text}
use interview_coach.Db.Models.{probe, nudge}
use interview_coach.Rounds.{
  RoundStrategy, Action, move, allows, conductor_allowed_actions, same_action, settled_action,
  coerce_action,
}

allows_either :
    (allowed : List Action) (a : Action)
    → allows allowed (move probe) ≡ true
    → allows allowed (if allows allowed a then a else move probe) ≡ true
allows_either allowed a h = elim (Bool-cases (allows allowed a)) [
  | inl taken ↦ ground (arith, h)
  | inr refused ↦ ground (arith, h)
]

settled_action-allowed :
    (o : Option Action) (strategy : RoundStrategy)
    → allows
        (conductor_allowed_actions strategy)
        (settled_action o (conductor_allowed_actions strategy))
      ≡ true
unfolding allows conductor_allowed_actions settled_action same_action
settled_action-allowed none strategy = refl
settled_action-allowed (some a) strategy = allows_either (conductor_allowed_actions strategy) a refl

-- Whatever the model answers, the action taken is one of the actions of the round.
pub coerce_action-allowed :
    (raw : Text) (strategy : RoundStrategy)
    → allows
        (conductor_allowed_actions strategy)
        (coerce_action raw (conductor_allowed_actions strategy))
      ≡ true
unfolding coerce_action
coerce_action-allowed raw strategy = settled_action-allowed _ strategy

-- Whatever the model answers, a round that does not allow nudges does not nudge.
pub coerce_action-nudge :
    (raw : Text) (strategy : RoundStrategy)
    → strategy.allow_nudge ≡ false
    → coerce_action raw (conductor_allowed_actions strategy) ≢ move nudge
unfolding allows conductor_allowed_actions same_action
coerce_action-nudge raw strategy h e = ground (
  arith,
  coerce_action-allowed raw strategy,
  ap (allows (conductor_allowed_actions strategy)) e,
  h,
)
