-- ===== src/Sdlc/Targets.antt =====
-- types.go: how a plan treats a phase, and the merge of a spec's override into the plan.
pub mod Laws
use forge_eng_fabric.Prelude.{ℕ, List, [], ◌∷◌, Option, none, some, ltb, ◌==◌, if◌then◌else◌}
use forge_eng_fabric.Prelude.Assoc.{lookup, insert}
use forge_eng_fabric.Sdlc.Types.{
  Phase, architecture, design, development, qa, security, devops, infrastructure, sre, finops,
  observability, TargetPolicy, required, optional, opt_in, skipped, other, Targets, Result, ok, err,
  cannot_relax_required, phase_eq, policy_eq, Phase-discrete, TargetPolicy-discrete,
}

abbrev pub default_targets : Targets
default_targets =
    (architecture, required)
    ∷ (design, optional)
    ∷ (development, required)
    ∷ (qa, required)
    ∷ (security, required)
    ∷ (devops, required)
    ∷ (infrastructure, opt_in)
    ∷ (sre, optional)
    ∷ (finops, opt_in)
    ∷ (observability, opt_in)
    ∷ []

-- `targets[phase]`: the zero value is the empty string.
unfoldable pub policy_of : Targets → Phase → TargetPolicy
policy_of targets p = elim (lookup p targets) [ none ↦ other "" | some v ↦ v ]

-- `rank[policy]`
unfoldable pub rank : TargetPolicy → ℕ
rank skipped = 0
rank opt_in = 1
rank optional = 2
rank required = 3
rank (other s) = 0

-- The loop over the override, in the order in which the map is walked.
unfoldable pub merge_from : Targets → Targets → Result Targets
merge_from merged [] = ok merged
merge_from merged ((phase, ov) ∷ rest) =
    let current = policy_of merged phase in
    let merge_rest = merge_from (insert phase ov merged) rest in
    if ltb (rank ov) (rank current)
    then err (cannot_relax_required phase current ov)
    else merge_rest

-- `merged` starts as a copy of the application's targets.
unfoldable pub merge_targets : Targets → Targets → Result Targets
unfolding merge_from
merge_targets app_targets override = merge_from app_targets override

-- The loop of `CreateInitiative` over `req.Include`.
unfoldable pub promote : Targets → List Phase → Targets
promote targets [] = targets
promote targets (p ∷ ps) =
    promote (if policy_of targets p == opt_in then insert p required targets else targets) ps
