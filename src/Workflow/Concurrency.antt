-- ===== src/Workflow/Concurrency.antt =====
-- concurrency.go, and the triggers of pkg/workflow/ast. Each method holds the lock from start to end,
-- but for the wait of a queued execution.
pub mod Counts
pub mod Laws
use forge_eng_fabric.Prelude.{
  ℕ, zero, suc, ◌-◌, String, Bool, List, [], ◌∷◌, Option, none, some, ltb, ◌==◌, nat_eq, string_eq,
  if◌then◌else◌, Eq, ◌≡◌, ◌↔◌, refl, ap₂, subst, true, false, ◌&&◌, beq_refl,
}
use forge_eng_fabric.Prelude.Assoc.{lookup, insert}
use forge_eng_fabric.Workflow.Ast.{
  TriggerConcurrency, queue, drop, overlap, unlisted, Trigger, concurrency_or_default,
}

pub record ConcurrencyKey : Type 0 where
  pub workflow_id : String
  pub trigger_id : String

abbrev same_key : ConcurrencyKey → ConcurrencyKey → Bool
same_key a b = a.workflow_id == b.workflow_id && a.trigger_id == b.trigger_id

both_true : (a b : Bool) → (a && b) ≡ true → (a ≡ true) × (b ≡ true)
both_true true b h = (refl, h)
both_true false b h = cc

pub same_key_iff : (a b : ConcurrencyKey) → (same_key a b ≡ true) ↔ (a ≡ b)
same_key_iff a b = (
  λ h.
      let s = both_true (a.workflow_id == b.workflow_id) (a.trigger_id == b.trigger_id) h in
      ap₂ (λ (x : String) (y : String). key_of x y)
        ((string_eq.decides a.workflow_id b.workflow_id).0 s.0)
        ((string_eq.decides a.trigger_id b.trigger_id).0 s.1),
  λ p. subst (λ c. same_key a c ≡ true) p (same_self a),
)
  where
    key_of : String → String → ConcurrencyKey
    key_of x y = record { workflow_id = x; trigger_id = y }

    same_self : (c : ConcurrencyKey) → same_key c c ≡ true
    same_self c = ap₂ (λ x y. x && y) (beq_refl c.workflow_id) (beq_refl c.trigger_id)

instance abbrev pub key_eq : Eq ConcurrencyKey
key_eq = record { is_same = same_key; decides = same_key_iff }

-- `holders`
abbrev pub Tracker : Type 0
Tracker = List (ConcurrencyKey × ℕ)

-- InFlight
unfoldable pub in_flight : ConcurrencyKey → Tracker → ℕ
in_flight key t = elim (lookup key t) [ none ↦ 0 | some n ↦ n ]

unfoldable pub delete : ConcurrencyKey → Tracker → Tracker
delete key [] = []
delete key ((k, n) ∷ rest) =
    let others = delete key rest in if k == key then others else (k, n) ∷ others

-- How an attempt to acquire a lane ends. An execution that waits is woken by a release and then tries
-- again.
pub data Attempt : Type 0 where
  acquired dropped waits : Attempt

-- `t.holders[key]++`
unfoldable pub hold : ConcurrencyKey → Tracker → Tracker
hold key t = insert key (suc (in_flight key t)) t

-- Acquire, up to its wait.
unfoldable pub acquire : ConcurrencyKey → TriggerConcurrency → Tracker → Attempt × Tracker
acquire key overlap t = (acquired, hold key t)
acquire key drop t = if ltb 0 (in_flight key t) then (dropped, t) else (acquired, hold key t)
acquire key queue t = if ltb 0 (in_flight key t) then (waits, t) else (acquired, hold key t)
acquire key (unlisted s) t = (acquired, hold key t)

-- Release
unfoldable pub release : ConcurrencyKey → Tracker → Tracker
release key t =
    let n = in_flight key t in
    let t' = if ltb 0 n then insert key (n - 1) t else t in
    if in_flight key t' == 0 then delete key t' else t'

policy_in : List Trigger → String → TriggerConcurrency
policy_in [] trigger_id = queue
policy_in (t ∷ ts) trigger_id =
    let rest = policy_in ts trigger_id in
    if t.id == trigger_id then concurrency_or_default t else rest

-- lookupTriggerPolicy; a nil workflow is `none`.
unfoldable pub lookup_trigger_policy : Option (List Trigger) → String → TriggerConcurrency
unfolding policy_in
lookup_trigger_policy none trigger_id = queue
lookup_trigger_policy (some triggers) trigger_id = policy_in triggers trigger_id

-- What an execution does with the tracker: it tries to acquire a lane, and one that holds a lane ends
-- and releases it.
pub data Call : Type 0 where
  tries : ConcurrencyKey → TriggerConcurrency → Call
  ends : ConcurrencyKey → Call

-- The tracker, and the lanes that executions hold: a lane once for each execution that acquired it and
-- has not ended.
pub record Running : Type 0 where
  pub tracker : Tracker
  pub holding : List ConcurrencyKey

-- How many executions hold the lane.
unfoldable pub holders : ConcurrencyKey → List ConcurrencyKey → ℕ
holders key [] = 0
holders key (k ∷ ks) = let n = holders key ks in if k == key then suc n else n

-- One of the executions that hold the lane is gone.
unfoldable pub without : ConcurrencyKey → List ConcurrencyKey → List ConcurrencyKey
without key [] = []
without key (k ∷ ks) = let rest = without key ks in if k == key then ks else k ∷ rest

abbrev pub holds_now : ConcurrencyKey → Attempt → List ConcurrencyKey → List ConcurrencyKey
holds_now key acquired ks = key ∷ ks
holds_now key dropped ks = ks
holds_now key waits ks = ks

-- One call, with the lock. A release is made by an execution that holds the lane, once, as the
-- comments of the tracker ask: where none holds it there is none to end.
unfoldable pub after_call : Call → Running → Running
unfolding acquire release holders without
after_call (tries key policy) s =
    let (answer, t) = acquire key policy s.tracker in
    record { tracker = t; holding = holds_now key answer s.holding }
after_call (ends key) s =
    if ltb 0 (holders key s.holding)
    then record { tracker = release key s.tracker; holding = without key s.holding }
    else s

-- After the calls, in the order in which they get the lock.
unfoldable pub run : List Call → Running → Running
unfolding after_call
run [] s = s
run (c ∷ calls) s = run calls (after_call c s)

-- newConcurrencyTracker
abbrev pub idle : Running
idle = record { tracker = []; holding = [] }
