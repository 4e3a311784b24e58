-- ===== src/Healing/Promote.antt =====
-- service.go: `PromoteAction`, which allows an action a higher level in an environment.
pub mod Laws
use forge_eng_fabric.Prelude.{
  String, Bool, true, false, not, ◌&&◌, ◌||◌, List, [], ◌∷◌, Option, none, some, ◌==◌, string_eq,
  if◌then◌else◌,
}
use forge_eng_fabric.Prelude.Int.{ℤ, pos, negsuc, int_ltb}
use forge_eng_fabric.Prelude.Assoc.{lookup, insert}
use forge_eng_fabric.Prelude.Text.{◌+s◌}
use forge_eng_fabric.Healing.Types.{
  Level, l4, l5, level_eq, Level-discrete, Action, PromotionRequest, PromotionMetrics, Error,
  action_not_found, promotion_approval_missing, invalid_level, promotion_prerequisites_unmet,
}
use forge_eng_fabric.Healing.Level.{level_allowed, append_level, levels_in}
use forge_eng_fabric.Healing.World.{
  Content, promoted, Store, Env, M, pure, ◌>>=◌, ◌>>◌, read_store, write_store, emit, set_action,
}

abbrev no_metrics : PromotionMetrics
no_metrics = record {
  eval_pass_rate = pos 0;
  successful_l3_runs = pos 0;
  days_since_last_postmortem = pos 0;
}

-- GetPromotionStats
unfoldable pub get_promotion_stats : String → String → Store → PromotionMetrics
get_promotion_stats action_id environment s =
    elim (lookup (action_id +s "/" +s environment) s.promotion_stats) [
      | none ↦ no_metrics
      | some m ↦ m
    ]

-- The prerequisites: a pass rate of 0.95, 20 runs at L3, and 30 days.
unfoldable pub meets : PromotionMetrics → Bool
meets m =
    not (int_ltb m.eval_pass_rate (pos 9500))
    && not (int_ltb m.successful_l3_runs (pos 20))
    && not (int_ltb m.days_since_last_postmortem (pos 30))

-- What allows the level; where it is allowed already, the action is stored as it is.
unfoldable pub with_level : Action → String → Level → Action
with_level a environment level =
    if level_allowed (levels_in a environment) level then a else record a {
      allowed_levels_by_env =
          insert environment (append_level (levels_in a environment) level) a.allowed_levels_by_env;
    }

-- The checks of PromoteAction, in order, on the store.
unfoldable pub check_promotion : PromotionRequest → Store → Option Error
unfolding Level-discrete
check_promotion req s =
    if not (req.target_level == l4) && not (req.target_level == l5)
    then some invalid_level
    else elim (lookup req.action_id s.actions) [
      | none ↦ some action_not_found
      | some a ↦
          let stats = get_promotion_stats req.action_id req.environment s in
          if not req.platform_admin_ok || not req.security_ok
          then some promotion_approval_missing
          else if not (meets stats)
          then some (promotion_prerequisites_unmet stats)
          else none
    ]

unfoldable pub promote_found : Env → PromotionRequest → Option Action → M (Option Error)
promote_found env req none = pure (some action_not_found)
promote_found env req (some a) = do
  write_store (set_action (with_level a req.environment req.target_level))
  emit env "" "" ("action/" +s a.id)
      (promoted a.id req.environment req.target_level req.requested_by)
  pure none

abbrev pub or_promote : Option Error → M (Option Error) → M (Option Error)
or_promote (some e) m = pure (some e)
or_promote none m = m

-- PromoteAction, to an error or none.
unfoldable pub promote_action : Env → PromotionRequest → M (Option Error)
promote_action env req = do
  s ← read_store
  or_promote (check_promotion req s) (promote_found env req (lookup req.action_id s.actions))
