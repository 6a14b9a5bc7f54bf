-- ===== src/Tests/Preparation.antt =====
-- The preparation, the chunker and the round policies at work.
use interview_coach.Base.{◌≡◌, ◌≢◌, ◌↔◌, refl, true, false, none, some, List, [], ◌∷◌}
use interview_coach.Text.{codes}
use interview_coach.Db.Models.{nudge}
use interview_coach.Db.Packet.{get_job}
use interview_coach.Rounds.{move, behavioral_star, allows, conductor_allowed_actions, coerce_action}
use interview_coach.Rounds.Allowed.{coerce_action-allowed, coerce_action-nudge}
use interview_coach.Prep.Cache.{hit, cached, ids_or_empty, insert_set, decide_profile_cache}
use interview_coach.Prep.Cache.Sets.{SameSet, decide_profile_cache_lem}
use interview_coach.Prep.Readiness.{Ready, prep_readiness, prep_readiness-Ready}
use interview_coach.Chunking.{
  Tokenizer, Sizes, Section, body_window, prefix_token_count, section_cuts, chunk_sections,
}
use interview_coach.Chunking.Cover.{Covered, section_cuts-Covered}
use interview_coach.Chunking.Numbers.{Chunked, chunk_sections-numbered}
use interview_coach.Tests.Toy.{env, created, job}

-- One token for each character.
abbrev letters : Tokenizer
letters = record { input_ids = λ t. t; decode = λ ids. ids }

abbrev small : Sizes
small = record { window = 4; overlap = 1; code_window = 6; code_overlap = 2 }

abbrev sections : List Section
sections =
    record { header = none; body = codes "abcdefghij"; is_code = false }
    ∷ record { header = some (codes "f.py"); body = codes "xyz"; is_code = true }
    ∷ []

section_cuts-Covered_example :
    Covered
      (body_window 4 (prefix_token_count letters small none []))
      10
      0
      (section_cuts letters small none 4 1 [] (codes "abcdefghij"))
section_cuts-Covered_example = section_cuts-Covered letters small none 4 1 [] (codes "abcdefghij")

chunk_sections-numbered_example :
    Chunked letters small none 0 (chunk_sections letters small none 0 sections)
chunk_sections-numbered_example = chunk_sections-numbered letters small none 0 sections

decide_profile_cache_lem_example :
    (decide_profile_cache true (some (5 ∷ 4 ∷ 5 ∷ [])) (4 ∷ 5 ∷ []) ≡ hit cached)
    ↔ ((true ≡ true) × SameSet (ids_or_empty (some (5 ∷ 4 ∷ 5 ∷ []))) (4 ∷ 5 ∷ []))
decide_profile_cache_lem_example =
    decide_profile_cache_lem true (some (5 ∷ 4 ∷ 5 ∷ [])) (4 ∷ 5 ∷ [])

-- Order and repetition do not matter.
reordered : decide_profile_cache true (some (5 ∷ 4 ∷ 5 ∷ [])) (4 ∷ 5 ∷ []) ≡ hit cached
unfolding decide_profile_cache insert_set
reordered = refl

prep_readiness-Ready_example : Ready env created 2 3 job (prep_readiness env created 2 3)
unfolding get_job
prep_readiness-Ready_example = prep_readiness-Ready env created 2 3 job refl

coerce_action-allowed_example :
    allows
      (conductor_allowed_actions behavioral_star)
      (coerce_action (codes " Nudge ") (conductor_allowed_actions behavioral_star))
    ≡ true
coerce_action-allowed_example = coerce_action-allowed (codes " Nudge ") behavioral_star

coerce_action-nudge_example :
    coerce_action (codes " Nudge ") (conductor_allowed_actions behavioral_star) ≢ move nudge
coerce_action-nudge_example = coerce_action-nudge (codes " Nudge ") behavioral_star refl
