-- ===== src/Deploy/Pipeline/Frames.antt =====
-- Which steps apply nothing to a cluster.
use forge_eng_fabric.Prelude.{
  ℕ, ◌≡◌, refl, ◌∙◌, String, Bool, true, false, List, [], ◌∷◌, Option, none, some, keep,
  keep-append, append-nil, string_eq, nat_eq,
}
use forge_eng_fabric.Prelude.State.{
  State, pure, bind, ◌>>=◌, get, Same, Same-pure, Same-get, Same-bind, Same-if, Same-when, Gives,
  same_rules,
}
use forge_eng_fabric.Prelude.Value.{Fields}
use forge_eng_fabric.Deploy.Types.{Status, Stage, StageOutcome, Deployment, Runtime}
use forge_eng_fabric.Deploy.Store.{Store}
use forge_eng_fabric.Deploy.World.{
  Call, check_usable, get_runtime, resolve_image, evaluate_policies, preflight_runtime,
  render_manifest, apply_artifacts, verify_rollout, roll_back_to, request_approval, record_asset,
  Reply, err, RuntimeProvider, Service, Content, World, M, new_id, or_new_id, clock, write_store,
  ask, emit, emit_stage_event,
}
use forge_eng_fabric.Deploy.Stages.{
  put_status, respond, fail, fetch_runtime, use_runtime, runtime_preflight,
}

abbrev pub is_apply : Call → Bool
is_apply (apply_artifacts runtime art params) = true
is_apply (check_usable id) = false
is_apply (get_runtime id) = false
is_apply (resolve_image image digest) = false
is_apply (evaluate_policies req) = false
is_apply (preflight_runtime runtime) = false
is_apply (render_manifest mfs params) = false
is_apply (verify_rollout runtime mfs params) = false
is_apply (roll_back_to runtime mfs params) = false
is_apply (request_approval id reason) = false
is_apply (record_asset d) = false

-- What was applied to the clusters.
unfoldable pub applications : World → List Call
applications w = keep is_apply w.calls

pub Same-new_id : (s : Service) → Same applications (new_id s)
unfolding new_id applications
Same-new_id s = record { at = λ w. refl }

pub Same-clock : (s : Service) → Same applications (clock s)
unfolding clock applications
Same-clock s = record { at = λ w. refl }

pub Same-write : (f : Store → Store) → Same applications (write_store f)
unfolding write_store applications
Same-write f = record { at = λ w. refl }

pub Same-emit : (s : Service) (d : Deployment) (c : Content) → Same applications (emit s d c)
unfolding emit applications
Same-emit s d c = record { at = λ w. refl }

pub Same-ask :
    {A : Type 0} (c : Call) (answer : ℕ → A) → is_apply c ≡ false → Same applications (ask c answer)
unfolding ask applications keep
Same-ask c answer h = record {
  at = λ w. keep-append is_apply w.calls (c ∷ []) ∙ rw h (append-nil (keep is_apply w.calls));
}

pub ruleset basic = (same_rules, Same-new_id, Same-clock, Same-write, Same-emit)

pub Same-or_new_id : (s : Service) (id : String) → Same applications (or_new_id s id)
unfolding or_new_id
Same-or_new_id s id = search basic

pub Same-stage_event :
    (s : Service) (d : Deployment) (stage : Stage) (o : StageOutcome) (r : String) (f : Fields)
    (t u : ℕ)
    → Same applications (emit_stage_event s d stage o r f t u)
unfolding emit_stage_event
Same-stage_event s d stage o r f t u = search basic

pub Same-put_status :
    (s : Service) (id : String) (status : Status) (reason : String)
    → Same applications (put_status s id status reason)
unfolding put_status
Same-put_status s id status reason = search basic

pub Same-respond :
    (id : String) (status : Status) (reason : String) (c : Bool)
    → Same applications (respond id status reason c)
unfolding respond
Same-respond id status reason c = search basic

pub ruleset written = (basic, Same-or_new_id, Same-stage_event, Same-put_status, Same-respond)

pub Same-fail :
    (s : Service) (d : Deployment) (stage : Stage) (e : String)
    → Same applications (fail s d stage e)
unfolding fail
Same-fail s d stage e = search written depth 12

Same-fetch : (p : RuntimeProvider) (id : String) → Same applications (fetch_runtime p id)
unfolding fetch_runtime
Same-fetch p id = Same-bind applications _ _ (Same-ask _ _ refl) (λ r. Same-pure applications _)

Same-use : (p : RuntimeProvider) (d : Deployment) → Same applications (use_runtime p d)
unfolding use_runtime
Same-use p d = Same-bind applications _ _ (Same-ask _ _ refl) ended
  where
    ended :
        (o : Option String)
        → Same applications (elim o [ some e ↦ pure (err e) | none ↦ fetch_runtime p d.runtime_id ])
    ended (some e) = Same-pure applications _
    ended none = Same-fetch p d.runtime_id

pub Same-preflight : (s : Service) (d : Deployment) → Same applications (runtime_preflight s d)
unfolding runtime_preflight
Same-preflight s d = of_provider s.runtimes
  where
    of_provider :
        (o : Option RuntimeProvider)
        → Same applications (elim o as (λ _. M (Reply Runtime)) [
          | none ↦ pure (err "runtime provider not configured")
          | some p ↦ use_runtime p d
        ])
    of_provider none = Same-pure applications _
    of_provider (some p) = Same-use p d
