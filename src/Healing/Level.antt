-- ===== src/Healing/Level.antt =====
-- service.go: the levels, and the level that an envelope and an action leave of the one requested.
pub mod Laws
use forge_eng_fabric.Prelude.{
  ℕ, String, Bool, true, false, not, ◌||◌, ◌&&◌, List, [], ◌∷◌, ◌++◌, Option, none, some, ltb, ◌==◌,
  string_eq, if◌then◌else◌,
}
use forge_eng_fabric.Prelude.Assoc.{lookup, insert}
use forge_eng_fabric.Healing.Types.{
  Level, l1, l2, l3, l4, l5, unlisted, level_eq, Level-discrete, Outcome, no_outcome,
  degraded_by_envelope, Reason, no_reason, kill_switch, envelope_cap, action_env_cap, Envelope,
  Action,
}

-- levelAllowed
unfoldable pub level_allowed : List Level → Level → Bool
unfolding Level-discrete
level_allowed [] want = false
level_allowed (l ∷ rest) want = l == want || level_allowed rest want

-- appendLevel
unfoldable pub append_level : List Level → Level → List Level
append_level existing l = if level_allowed existing l then existing else existing ++ l ∷ []

-- `rank[l]`
unfoldable pub rank : Level → ℕ
rank l1 = 1
rank l2 = 2
rank l3 = 3
rank l4 = 4
rank l5 = 5
rank (unlisted s) = 0

-- The loop of highestAllowed.
unfoldable pub highest_from : Level → List Level → Level
unfolding rank
highest_from best [] = best
highest_from best (l ∷ rest) = highest_from (if ltb (rank best) (rank l) then l else best) rest

unfoldable pub highest_allowed : List Level → Level
unfolding highest_from
highest_allowed allowed = highest_from l1 allowed

-- What `Trigger` has decided of the level so far.
pub record Decided : Type 0 where
  pub level : Level
  pub outcome : Outcome
  pub reason : Reason

-- "Envelope cap."
unfoldable pub cap_by_envelope : Envelope → Level → Decided
unfolding level_allowed highest_allowed
cap_by_envelope envelope requested =
    if level_allowed envelope.allowed_levels requested
    then record { level = requested; outcome = no_outcome; reason = no_reason }
    else record {
      level = highest_allowed envelope.allowed_levels;
      outcome = degraded_by_envelope;
      reason = envelope_cap;
    }

-- `action.AllowedLevelsByEnv[env]`
unfoldable pub levels_in : Action → String → List Level
levels_in action env = elim (lookup env action.allowed_levels_by_env) [ none ↦ [] | some ls ↦ ls ]

abbrev or_action_cap : Reason → Reason
or_action_cap no_reason = action_env_cap
or_action_cap kill_switch = kill_switch
or_action_cap r = r

abbrev is_empty : List Level → Bool
is_empty [] = true
is_empty (l ∷ ls) = false

-- "Action allowed_levels_by_env intersection."
unfoldable pub cap_by_levels : List Level → Decided → Decided
unfolding level_allowed highest_allowed
cap_by_levels allowed d =
    if not (is_empty allowed) && not (level_allowed allowed d.level)
    then record {
      level = highest_allowed allowed;
      outcome = degraded_by_envelope;
      reason = or_action_cap d.reason;
    }
    else d

unfoldable pub cap_by_action : Action → String → Decided → Decided
unfolding levels_in cap_by_levels
cap_by_action action env d = cap_by_levels (levels_in action env) d

-- `envelope.DefaultLevel`, or L2 where it is empty.
unfoldable pub requested_level : Envelope → Level
unfolding Level-discrete
requested_level envelope =
    if envelope.default_level == unlisted "" then l2 else envelope.default_level

-- The level at which an action runs for an incident, before the rate limit.
unfoldable pub decide_level : Envelope → Action → String → Decided
unfolding requested_level cap_by_envelope cap_by_action
decide_level envelope action env =
    cap_by_action action env (cap_by_envelope envelope (requested_level envelope))
