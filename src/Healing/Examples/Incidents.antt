-- ===== src/Healing/Examples/Incidents.antt =====
-- The theorems on incidents at one incident.
use forge_eng_fabric.Prelude.{
  ℕ, ◌≤◌, ◌≡◌, inr, refl, true, false, List, [], ◌∷◌, length, arith, string_eq, keep,
}
use forge_eng_fabric.Prelude.Assoc.{lookup, insert}
use forge_eng_fabric.Healing.Types
use forge_eng_fabric.Healing.Types.{
  Level, l1, l2, l3, l4, l5, level_eq, Level-discrete, notified, suggested, suppressed,
  blocked_by_rate_limit, rate_limit, no_reason, no_outcome, Outcome, Reason, failed,
  approvals_unreachable, unlisted, Envelope, Action, PromotionRequest, PromotionMetrics,
  HealingDecision, IncidentInput, FileDiff, ProposedFix, promotion_approval_missing,
}
use forge_eng_fabric.Healing.Level.{
  level_allowed, rank, levels_in, decide_level, cap_by_envelope, cap_by_levels, cap_by_action,
  requested_level,
}
use forge_eng_fabric.Healing.World.{
  pure, continue, ◌>>=◌, ◌>>◌, reply_cases, new_id, clock, read_store, write_store, ask, emit,
  get_envelope, save_decision, kill_switch_active, bucket_of, track_invocation, tracked,
}
use forge_eng_fabric.Healing.World.Frames.{executions}
use forge_eng_fabric.Healing.Runs.{emit_for, run_l3}
use forge_eng_fabric.Healing.Runs.Calls.{NeverApproves}
use forge_eng_fabric.Healing.Trigger.{
  decided, pick_action, skip, run_level, stop_at, run_decision, limit_rate, trigger_with,
  trigger_found, trigger,
}
use forge_eng_fabric.Healing.Trigger.Laws.{low_level_executes_nothing}
use forge_eng_fabric.Healing.Trigger.KillSwitch.{Stopped, IsKilled, kill_switch_stops_all}
use forge_eng_fabric.Healing.Trigger.RateLimit.{recent, BlocksAs, full_bucket_blocks}
use forge_eng_fabric.Healing.Examples.{env, restart, envelope_at, incident, world_at, decision}

l3_decided :
    (trigger env incident (world_at l3 false [])).0
    ≡ decided (decision l3 l3 failed (approvals_unreachable "down"))
unfolding trigger trigger_found trigger_with limit_rate run_decision run_level stop_at skip emit_for
    pick_action get_envelope run_l3 reply_cases ask lookup insert kill_switch_active
    track_invocation tracked keep decide_level cap_by_action cap_by_envelope cap_by_levels
    requested_level level_allowed levels_in Level-discrete new_id clock read_store write_store
    save_decision emit continue pure ◌>>=◌ ◌>>◌
l3_decided = refl

rank_three : rank l3 ≤ 3
unfolding rank
rank_three = omega arith

never : NeverApproves env
never n id h = cc

low_level_executes_nothing_example :
    executions (trigger env incident (world_at l3 false [])).1.calls
    ≡ executions (world_at l3 false []).calls
low_level_executes_nothing_example =
    low_level_executes_nothing env incident (world_at l3 false [])
      (decision l3 l3 failed (approvals_unreachable "down")) l3_decided (inr (rank_three, never))

killed_decided :
    (trigger env incident (world_at l3 true [])).0
    ≡ decided (decision l1 l3 suppressed Types.kill_switch)
unfolding trigger trigger_found trigger_with limit_rate run_decision run_level stop_at skip emit_for
    pick_action get_envelope run_l3 reply_cases ask lookup insert kill_switch_active
    track_invocation tracked keep decide_level cap_by_action cap_by_envelope cap_by_levels
    requested_level level_allowed levels_in Level-discrete new_id clock read_store write_store
    save_decision emit continue pure ◌>>=◌ ◌>>◌
killed_decided = refl

workspace_IsKilled : IsKilled (world_at l3 true []).store incident.workspace_id
unfolding lookup
workspace_IsKilled = inr refl

kill_switch_stops_all_example :
    Stopped
      (world_at l3 true [])
      (trigger env incident (world_at l3 true []))
      (decision l1 l3 suppressed Types.kill_switch)
kill_switch_stops_all_example =
    kill_switch_stops_all env incident (world_at l3 true [])
      (decision l1 l3 suppressed Types.kill_switch) workspace_IsKilled killed_decided

abbrev times : List ℕ
times = 3000 ∷ 100 ∷ []

full :
    1 ≤ length (recent (env.now 0) (bucket_of (world_at l2 false times).store (envelope_at l2).id))
unfolding keep lookup
full = omega arith

full_bucket_blocks_example :
    BlocksAs (decision l2 l2 no_outcome no_reason) (world_at l2 false times) (
      limit_rate env incident restart
        (envelope_at l2)
        (decision l2 l2 no_outcome no_reason)
        (world_at l2 false times))
full_bucket_blocks_example =
    full_bucket_blocks env incident restart (envelope_at l2) (decision l2 l2 no_outcome no_reason)
      (world_at l2 false times) 1 refl (omega arith) full
