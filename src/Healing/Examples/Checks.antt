-- ===== src/Healing/Examples/Checks.antt =====
-- The theorems on levels, proposed fixes and promotions at small inputs.
use forge_eng_fabric.Prelude.{◌≡◌, refl, sym, ap, Bool, true, false, [], ◌∷◌, none, some, string_eq}
use forge_eng_fabric.Prelude.Int.{pos}
use forge_eng_fabric.Prelude.Assoc.{lookup}
use forge_eng_fabric.Healing.Types.{
  l2, l4, l5, level_eq, Level-discrete, Action, PromotionRequest, ProposedFix,
  promotion_approval_missing,
}
use forge_eng_fabric.Healing.Level.{
  level_allowed, rank, highest_from, highest_allowed, levels_in, decide_level, cap_by_envelope,
  cap_by_levels, cap_by_action, requested_level,
}
use forge_eng_fabric.Healing.Level.Laws.{Permits, decide_level-Permitted}
use forge_eng_fabric.Healing.World.{pure, continue, ◌>>=◌, ◌>>◌, read_store, write_store, emit}
use forge_eng_fabric.Healing.Promote.{
  get_promotion_stats, meets, check_promotion, promote_found, promote_action,
}
use forge_eng_fabric.Healing.Promote.Laws.{
  AllowsIn, Entitled, promotion_needs_approvals, some_injective,
}
use forge_eng_fabric.Healing.Examples.{env, restart, envelope_at, world_at}

decide_level-Permitted_example :
    Permits
      (levels_in restart "prod")
      (envelope_at l5).allowed_levels
      (decide_level (envelope_at l5) restart "prod").level
decide_level-Permitted_example = decide_level-Permitted (envelope_at l5) restart "prod"

-- An envelope that allows L1 to L3 does not cap an action whose own list is L4 alone.
raised_above_the_envelope :
    (decide_level
      (envelope_at l2)
      (record restart { allowed_levels_by_env = ("prod", l4 ∷ []) ∷ [] })
      "prod").level
    ≡ l4
unfolding decide_level cap_by_action cap_by_envelope cap_by_levels requested_level level_allowed
    highest_allowed highest_from rank levels_in lookup Level-discrete
raised_above_the_envelope = refl

abbrev fix : ProposedFix
fix = record {
  id = "f";
  app_id = "a";
  diff_type = "config";
  file_diffs =
      record { path = "infra/prod.yaml"; before = "x"; after = "y"; lines_changed = pos 3 } ∷ [];
  citations = [];
  blast_radius_estimate = "";
}

abbrev promotion : Bool → PromotionRequest
promotion security_ok = record {
  action_id = "restart";
  environment = "prod";
  target_level = l4;
  requested_by = "ana";
  platform_admin_ok = true;
  security_ok = security_ok;
}

refused_run :
    (promote_action env (promotion false) (world_at l2 false [])).0
    ≡ some promotion_approval_missing
unfolding promote_action check_promotion promote_found get_promotion_stats meets lookup
    Level-discrete read_store continue pure ◌>>=◌ ◌>>◌
refused_run = refl

promoted_run : (promote_action env (promotion true) (world_at l2 false [])).0 ≡ none
unfolding promote_action check_promotion promote_found get_promotion_stats meets lookup
    Level-discrete read_store write_store emit continue pure ◌>>=◌ ◌>>◌
promoted_run = refl

own_id :
    (a : Action) → lookup "restart" (world_at l2 false []).store.actions ≡ some a → a.id ≡ "restart"
unfolding lookup
own_id a h = ap (λ (x : Action). x.id) (sym (some_injective restart a h))

promotion_needs_approvals_example :
    Entitled (promotion true) (world_at l2 false []).store
    × AllowsIn
        (promote_action env (promotion true) (world_at l2 false [])).1.store
        "restart"
        "prod"
        l4
promotion_needs_approvals_example =
    promotion_needs_approvals env (promotion true) (world_at l2 false []) promoted_run own_id
