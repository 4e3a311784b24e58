-- ===== src/Healing/World.antt =====
-- types.go and events.go: the store, the events, and the calls that the service makes of the
-- workflow executor and of the approvals client, which are outside it.
pub mod Frames
use forge_eng_fabric.Prelude.{
  ℕ, suc, ◌+◌, String, Bool, true, false, not, ◌&&◌, List, [], ◌∷◌, ◌++◌, Option, none, some, keep,
  first, length, ltb, ◌==◌, string_eq, if◌then◌else◌,
}
use forge_eng_fabric.Prelude.Assoc.{lookup, insert}
use forge_eng_fabric.Prelude.Text.{◌+s◌}
use forge_eng_fabric.Prelude.Value.{Fields}
use forge_eng_fabric.Healing.Types.{
  Level, Outcome, Reason, Envelope, Action, PromotionMetrics, HealingDecision, SignalSource,
  L1Detection, L2Suggestion, SafetyEvalResult,
}

-- The payload of an event; its constructor is the type of the event.
pub data Content : Type 0 where
  triggered : HealingDecision → String → Bool → Content
  level_decided : HealingDecision → Reason → Content
  executed : HealingDecision → String → Content
  rolled_back escalated : HealingDecision → Content
  detected : L1Detection → Content
  fix_downgraded fix_proposed : L2Suggestion → Content
  promoted : String → String → Level → String → Content

pub record CloudEvent : Type 0 where
  pub id : String
  pub tenant_id : String
  pub workspace_id : String
  pub subject : String
  pub time : ℕ
  pub content : Content

-- A call of the executor or of the approvals client.
pub data Ask : Type 0 where
  execute rollback : String → Fields → Ask
  verify : String → Ask
  create_approval : String → String → Ask
  wait_approval : String → Ask

pub data Reply {ℓ} (A : Type ℓ) : Type ℓ where
  ok : A → Reply A
  err : String → Reply A

-- What is outside: the n-th identifier, the n-th reading of the clock, and how the executor and the
-- approvals client answer the n-th call that is made of them.
pub record Env : Type 0 where
  pub uuid : ℕ → String
  pub now : ℕ → ℕ
  pub on_execute : ℕ → String → Fields → Reply String
  pub on_verify : ℕ → String → Reply Bool
  pub on_rollback : ℕ → String → Fields → Reply String
  pub on_create : ℕ → Reply String
  pub on_wait : ℕ → String → Reply Bool

-- The order of `envelopes` is the order in which a walk over the map meets them.
pub record Store : Type 0 where
  pub envelopes : List (String × Envelope)
  pub actions : List (String × Action)
  pub decisions : List (String × HealingDecision)
  pub detections : List (String × L1Detection)
  pub suggestions : List (String × L2Suggestion)
  pub kill_global : Bool
  pub kill_workspace : List (String × Bool)
  pub rate_buckets : List (String × List ℕ)
  pub promotion_stats : List (String × PromotionMetrics)

pub record World : Type 0 where
  pub store : Store
  pub events : List CloudEvent
  pub calls : List Ask
  pub ids : ℕ
  pub readings : ℕ

abbrev pub M : Type 0 → Type 0
M A = World → A × World

unfoldable pub pure : {A : Type 0} → A → M A
pure a w = (a, w)

unfoldable pub continue : {A B : Type 0} → A × World → (A → M B) → B × World
continue (a, w) f = f a w

infixl 5 ◌>>=◌ ◌>>◌
unfoldable pub ◌>>=◌ : {A B : Type 0} → M A → (A → M B) → M B
◌>>=◌ m f w = continue (m w) f

unfoldable pub ◌>>◌ : {B : Type 0} → M (Unit {0}) → M B → M B
◌>>◌ m k = m >>= λ _. k

unfoldable pub reply_cases : {A B : Type 0} → Reply A → (String → M B) → (A → M B) → M B
reply_cases (err e) f g = f e
reply_cases (ok a) f g = g a

unfoldable pub new_id : Env → M String
new_id env w = (env.uuid w.ids, record w { ids = suc w.ids })

unfoldable pub clock : Env → M ℕ
clock env w = (env.now w.readings, record w { readings = suc w.readings })

unfoldable pub read_store : M Store
read_store w = (w.store, w)

unfoldable pub write_store : (Store → Store) → M (Unit {0})
write_store f w = (tt, record w { store = f w.store })

unfoldable pub ask : {A : Type 0} → Ask → (ℕ → A) → M A
ask a answer w = (answer (length w.calls), record w { calls = w.calls ++ a ∷ [] })

-- newEvent and MemorySink.Emit
unfoldable pub emit : Env → String → String → String → Content → M (Unit {0})
emit env tenant_id workspace_id subject content w = (
  tt,
  record w {
    ids = suc w.ids;
    readings = suc w.readings;
    events =
        w.events
        ++ record {
          id = env.uuid w.ids;
          tenant_id = tenant_id;
          workspace_id = workspace_id;
          subject = subject;
          time = env.now w.readings;
          content = content;
        }
          ∷ [];
  },
)

-- SetEnvelope
unfoldable pub set_envelope : ℕ → Envelope → Store → Store
set_envelope now e s =
    let id =
      if e.id == "" then e.capability +s "/" +s e.environment +s "/" +s e.criticality else e.id in
    record s { envelopes = insert id (record e { id = id; updated_at = now }) s.envelopes }

-- The loop of GetEnvelope, where no envelope has the exact key.
first_for : String → String → List (String × Envelope) → Option Envelope
first_for capability environment [] = none
first_for capability environment ((k, e) ∷ rest) =
    let others = first_for capability environment rest in
    if e.capability == capability && e.environment == environment then some e else others

unfoldable pub get_envelope : Store → String → String → String → Option Envelope
unfolding first_for
get_envelope s capability environment criticality =
    elim (lookup (capability +s "/" +s environment +s "/" +s criticality) s.envelopes) [
      | some e ↦ some e
      | none ↦ first_for capability environment s.envelopes
    ]

unfoldable pub set_action : Action → Store → Store
set_action a s = record s { actions = insert a.id a s.actions }

unfoldable pub save_decision : HealingDecision → Store → Store
save_decision d s = record s { decisions = insert d.id d s.decisions }

unfoldable pub save_detection : L1Detection → Store → Store
save_detection d s = record s { detections = insert d.id d s.detections }

unfoldable pub save_suggestion : L2Suggestion → Store → Store
save_suggestion sg s = record s { suggestions = insert sg.id sg s.suggestions }

values : {A : Type 0} → List (String × A) → List A
values [] = []
values ((k, a) ∷ rest) = a ∷ values rest

unfoldable pub list_decisions : String → Store → List HealingDecision
unfolding values
list_decisions incident_id s = keep (λ d. d.incident_id == incident_id) (values s.decisions)

unfoldable pub list_detections : String → Store → List L1Detection
unfolding values
list_detections app_id s = keep (λ d. d.app_id == app_id) (values s.detections)

unfoldable pub list_suggestions : String → Store → List L2Suggestion
unfolding values
list_suggestions app_id s = keep (λ sg. sg.app_id == app_id) (values s.suggestions)

unfoldable pub set_kill_switch : String → Bool → Store → Store
set_kill_switch workspace_id active s =
    if workspace_id == ""
    then record s { kill_global = active }
    else record s { kill_workspace = insert workspace_id active s.kill_workspace }

-- KillSwitch; a workspace that was never set reads false.
unfoldable pub kill_switch_active : Store → String → Bool
kill_switch_active s workspace_id =
    if s.kill_global
    then true
    else elim (lookup workspace_id s.kill_workspace) [ none ↦ false | some b ↦ b ]

-- `s.rateBuckets[envelopeID]`
abbrev pub bucket_of : Store → String → List ℕ
bucket_of s id = elim (lookup id s.rate_buckets) [ none ↦ [] | some l ↦ l ]

-- The bucket after the prune and the append of trackInvocation: an hour has 3600 seconds.
unfoldable pub tracked : ℕ → List ℕ → List ℕ
tracked now bucket = keep (λ t. ltb now (t + 3600)) bucket ++ now ∷ []

unfoldable pub track_invocation : String → ℕ → M ℕ
unfolding tracked
track_invocation id now w =
    let bucket = tracked now (bucket_of w.store id) in
    (
      length bucket,
      record w { store = record w.store { rate_buckets = insert id bucket w.store.rate_buckets } },
    )

unfoldable pub set_promotion_stats : String → String → PromotionMetrics → Store → Store
set_promotion_stats action_id environment m s = record s {
  promotion_stats = insert (action_id +s "/" +s environment) m s.promotion_stats;
}
