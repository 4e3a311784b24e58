-- ===== src/Sdlc/Examples/Plans.antt =====
-- The merge of the targets of a spec into those of an application.
use forge_eng_fabric.Prelude.{nat_eq, string_eq, ◌≡◌, refl, true, [], ◌∷◌, some}
use forge_eng_fabric.Prelude.Assoc.{lookup, insert}
use forge_eng_fabric.Sdlc.Types.{
  architecture, design, qa, infrastructure, phase_eq, Phase-discrete, policy_eq, TargetPolicy,
  required, optional, opt_in, Targets, ok,
}
use forge_eng_fabric.Sdlc.Targets.{policy_of, rank, merge_from, merge_targets}
use forge_eng_fabric.Sdlc.Targets.Laws.{is_as_tight, merge_only_tightens}
use forge_eng_fabric.Sdlc.Advance.{plan_policy}

abbrev app_targets : Targets
app_targets = (qa, required) ∷ (design, optional) ∷ (infrastructure, opt_in) ∷ []

abbrev spec_targets : Targets
spec_targets = (design, required) ∷ (architecture, opt_in) ∷ []

abbrev merged_targets : Targets
merged_targets =
    (qa, required) ∷ (design, required) ∷ (infrastructure, opt_in) ∷ (architecture, opt_in) ∷ []

merges : merge_targets app_targets spec_targets ≡ ok merged_targets
unfolding merge_targets merge_from policy_of rank lookup insert Phase-discrete
merges = refl

-- A phase that the application does not list is required of a completion, and may be relaxed.
unlisted_is_relaxed :
    (plan_policy (some []) qa ≡ required)
    × (merge_targets [] ((qa, optional) ∷ []) ≡ ok ((qa, optional) ∷ []))
unfolding plan_policy merge_targets merge_from policy_of rank lookup insert
unlisted_is_relaxed = (refl, refl)

lists_design : lookup design app_targets ≡ some optional
unfolding lookup Phase-discrete
lists_design = refl

merge_only_tightens_example :
    (v : TargetPolicy) × (lookup design merged_targets ≡ some v) × (is_as_tight optional v ≡ true)
merge_only_tightens_example =
    merge_only_tightens app_targets spec_targets merged_targets design optional merges lists_design
