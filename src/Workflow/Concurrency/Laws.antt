-- ===== src/Workflow/Concurrency/Laws.antt =====
-- Lanes that one execution holds at a time.
use forge_eng_fabric.Prelude.{
  ◌≤◌, ◌≡◌, ◌≢◌, refl, sym, subst, ◌⊎◌, inl, inr, true, List, [], ◌∷◌, All, ltb, ◌==◌, nat_eq,
  if◌then◌else◌, Bool-cases, arith,
}
use forge_eng_fabric.Prelude.Assoc.{lookup}
use forge_eng_fabric.Workflow.Ast.{TriggerConcurrency, queue, drop, overlap, unlisted}
use forge_eng_fabric.Workflow.Concurrency.{
  ConcurrencyKey, key_eq, in_flight, Attempt, acquired, dropped, waits, hold, acquire, Call, tries,
  ends, run, holders, without, holds_now, Running, idle, after_call,
}
use forge_eng_fabric.Workflow.Concurrency.Counts.{
  Counts, hold-Counts, release-Counts, holders-without_self, holders-without_ne,
}

-- The calls on the lane ask for it by queue or by drop.
abbrev pub Exclusive : ConcurrencyKey → Call → Type 0
Exclusive key (tries k policy) = k ≡ key → (policy ≡ queue) ⊎ (policy ≡ drop)
Exclusive key (ends k) = Unit

-- The tracker counts the executions that hold each lane, and one holds this lane at most.
record IsHeld (key : ConcurrencyKey) (s : Running) : Type 0 where
  counts : Counts s.tracker s.holding
  one : holders key s.holding ≤ 1

took :
    (key k : ConcurrencyKey) (s : Running)
    → ((k == key) ≡ true → holders key s.holding ≤ 0)
    → IsHeld key s
    → IsHeld key (record { tracker = hold k s.tracker; holding = k ∷ s.holding })
unfolding holders
took key k s free h = record {
  counts = hold-Counts k s.tracker s.holding h.counts;
  one = elim (Bool-cases (k == key)) [
    | inl p ↦ let none_yet = free p in rw p (omega arith)
    | inr p ↦ rw p h.one
  ];
}

abbrev guarded : ConcurrencyKey → Running → Attempt → Running
guarded k s x =
    let (answer, t) =
      if ltb 0 (in_flight k s.tracker) then (x, s.tracker) else (acquired, hold k s.tracker) in
    record { tracker = t; holding = holds_now k answer s.holding }

-- An attempt that is answered by whether the lane is free.
guarded-IsHeld :
    (key k : ConcurrencyKey) (s : Running) (x : Attempt)
    → holds_now k x s.holding ≡ s.holding
    → IsHeld key s
    → IsHeld key (guarded k s x)
guarded-IsHeld key k s x same h = elim (Bool-cases (ltb 0 (in_flight k s.tracker))) [
  | inl p ↦
      rw p (record { counts = subst (Counts s.tracker) (sym same) h.counts; one = rw same h.one })
  | inr p ↦ rw p (
      took key k s
        (λ q.
          subst (λ j. holders j s.holding ≤ 0) ((key_eq.decides k key).0 q)
            (subst (λ n. n ≤ 0) (h.counts k) (ground arith)))
        h)
]

unconditional :
    (key k : ConcurrencyKey) (s : Running)
    → k ≢ key
    → IsHeld key s
    → IsHeld key (record { tracker = hold k s.tracker; holding = k ∷ s.holding })
unconditional key k s ne h = took key k s (λ q. absurd (ne ((key_eq.decides k key).0 q))) h

tries-IsHeld :
    (key k : ConcurrencyKey) (policy : TriggerConcurrency) (s : Running)
    → Exclusive key (tries k policy)
    → IsHeld key s
    → IsHeld key (after_call (tries k policy) s)
unfolding after_call acquire
tries-IsHeld key k queue s e h = guarded-IsHeld key k s waits refl h
tries-IsHeld key k drop s e h = guarded-IsHeld key k s dropped refl h
tries-IsHeld key k overlap s e h =
    unconditional key k s (λ p. elim (e p) [ inl q ↦ cc | inr q ↦ cc ]) h
tries-IsHeld key k (unlisted x) s e h =
    unconditional key k s (λ p. elim (e p) [ inl q ↦ cc | inr q ↦ cc ]) h

fewer :
    (k key : ConcurrencyKey) (ks : List ConcurrencyKey)
    → holders key (without k ks) ≤ holders key ks
fewer k key ks = elim (Bool-cases (k == key)) [
  | inl p ↦
      subst (λ j. holders j (without k ks) ≤ holders j ks) ((key_eq.decides k key).0 p)
        (rw (holders-without_self k ks) (omega arith))
  | inr p ↦ rw (holders-without_ne k key ks p) (omega arith)
]

ends-IsHeld :
    (key k : ConcurrencyKey) (s : Running) → IsHeld key s → IsHeld key (after_call (ends k) s)
unfolding after_call
ends-IsHeld key k s h = elim (Bool-cases (ltb 0 (holders k s.holding))) [
  | inl p ↦ rw p (record {
    counts = release-Counts k s.tracker s.holding h.counts;
    one = let lower = fewer k key s.holding in let at_most = h.one in omega arith;
  })
  | inr p ↦ rw p h
]

run-IsHeld :
    (key : ConcurrencyKey) (calls : List Call) (s : Running)
    → All (Exclusive key) calls
    → IsHeld key s
    → IsHeld key (run calls s)
unfolding run
run-IsHeld key [] s all h = h
run-IsHeld key (tries k policy ∷ calls) s all h =
    run-IsHeld key calls _ all.1 (tries-IsHeld key k policy s all.0 h)
run-IsHeld key (ends k ∷ calls) s all h = run-IsHeld key calls _ all.1 (ends-IsHeld key k s h)

idle-IsHeld : (key : ConcurrencyKey) → IsHeld key idle
unfolding in_flight lookup holders
idle-IsHeld key = record { counts = λ k. refl; one = omega arith }

-- From a new tracker on, whatever lanes executions try to acquire and, where they hold them, release,
-- in whatever order: if all that try one lane do so by queue or by drop, then at most one execution
-- holds it, and the tracker's count of the lane is the number of executions that hold it.
pub lane_has_one_holder :
    (key : ConcurrencyKey) (calls : List Call)
    → All (Exclusive key) calls
    → (holders key (run calls idle).holding ≤ 1)
      × (in_flight key (run calls idle).tracker ≡ holders key (run calls idle).holding)
lane_has_one_holder key calls all =
    let h = run-IsHeld key calls idle all (idle-IsHeld key) in (h.one, h.counts key)
