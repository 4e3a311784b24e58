-- ===== src/Healing/Trigger/RateLimit.antt =====
-- The rate limit of an envelope.
use forge_eng_fabric.Prelude.{
  ℕ, suc, ◌+◌, ◌≤◌, ◌<◌, ◌≡◌, refl, Bool, true, false, List, [], ◌∷◌, length, length-append, keep,
  All, All-append, ltb, if◌then◌else◌, arith, Bool-cases, inl, inr,
}
use forge_eng_fabric.Prelude.Int.{pos, int_ltb}
use forge_eng_fabric.Healing.Types.{
  blocked_by_rate_limit, Envelope, Action, HealingDecision, IncidentInput, rate_limit,
}
use forge_eng_fabric.Healing.World.{
  Env, World, M, pure, ◌>>=◌, ◌>>◌, continue, clock, emit, write_store, track_invocation, bucket_of,
  tracked,
}
use forge_eng_fabric.Healing.Runs.{emit_for}
use forge_eng_fabric.Healing.Trigger.{Answer, decided, stop_at, limit_rate}

-- The times of the bucket that are less than an hour before `now`.
abbrev pub recent : ℕ → List ℕ → List ℕ
recent now bucket = keep (λ t. ltb now (t + 3600)) bucket

kept_recent : (now : ℕ) (bucket : List ℕ) → All (λ t. now < t + 3600) (recent now bucket)
unfolding keep
kept_recent now [] = tt
kept_recent now (t ∷ ts) = elim (Bool-cases (ltb now (t + 3600))) [
  | inl h ↦ rw h (ground arith, kept_recent now ts)
  | inr h ↦ rw h (kept_recent now ts)
]

kept_le : (now : ℕ) (bucket : List ℕ) → length (recent now bucket) ≤ length bucket
unfolding keep
kept_le now [] = omega arith
kept_le now (t ∷ ts) = elim (Bool-cases (ltb now (t + 3600))) [
  | inl h ↦ rw h (omega (arith, kept_le now ts))
  | inr h ↦ rw h (omega (arith, kept_le now ts))
]

-- The bucket that an invocation leaves holds only times of the last hour, is no longer than the one
-- before with the new time, and counts that time and each earlier one of the last hour.
pub tracked-Recent :
    (now : ℕ) (bucket : List ℕ)
    → All (λ t. now < t + 3600) (tracked now bucket)
      × (length (tracked now bucket) ≤ suc (length bucket))
      × (length (tracked now bucket) ≡ suc (length (recent now bucket)))
unfolding tracked
tracked-Recent now bucket =
    let counted = length-append (recent now bucket) (now ∷ []) in
    let fewer = kept_le now bucket in
    (
      All-append _ (recent now bucket) (now ∷ []) (kept_recent now bucket) (omega arith, tt),
      omega arith,
      omega arith,
    )

-- A blocked answer, with no call.
abbrev pub BlocksAs : HealingDecision → World → Answer × World → Type 0
BlocksAs d w r =
    (r.0 ≡ decided (record d { outcome = blocked_by_rate_limit; reason = rate_limit }))
    × (r.1.calls ≡ w.calls)

on_true :
    {A : Type 0} (P : A → Type 0) (b : Bool) (x y : A) → b ≡ true → P x → P (if b then x else y)
on_true P true x y h p = p
on_true P false x y h p = cc

stopped :
    (env : Env) (input : IncidentInput) (envelope : Envelope) (d : HealingDecision) (w : World)
    → BlocksAs d w (
        stop_at env input envelope
          (record d { outcome = blocked_by_rate_limit; reason = rate_limit })
          false
          w)
unfolding stop_at emit_for emit write_store ◌>>=◌ ◌>>◌ continue pure
stopped env input envelope d w = (refl, refl)

more_than : (k n : ℕ) → k < n → ltb k n ≡ true
more_than k n h = ground arith

is_over :
    (envelope : Envelope) (k now : ℕ) (bucket : List ℕ)
    → envelope.max_actions_per_hour ≡ pos k
    → k ≤ length (recent now bucket)
    → int_ltb envelope.max_actions_per_hour (pos (length (tracked now bucket))) ≡ true
is_over envelope k now bucket h full =
    let counted = (tracked-Recent now bucket).2 in
    rw h (more_than k (length (tracked now bucket)) (omega arith))

-- The world once the invocation is counted.
abbrev counted_in : Env → Envelope → World → World
counted_in env envelope w = (track_invocation envelope.id (env.now w.readings) (clock env w).1).1

-- Where an envelope allows k actions in an hour, k > 0, and k or more have been counted in the last
-- hour, the decision is blocked, and nothing is asked of the executor or of the approvals client.
pub full_bucket_blocks :
    (env : Env) (input : IncidentInput) (action : Action) (envelope : Envelope)
    (d : HealingDecision) (w : World) (k : ℕ)
    → envelope.max_actions_per_hour ≡ pos k
    → 0 < k
    → k ≤ length (recent (env.now w.readings) (bucket_of w.store envelope.id))
    → BlocksAs d w (limit_rate env input action envelope d w)
unfolding limit_rate clock track_invocation ◌>>=◌ continue
full_bucket_blocks env input action envelope d w k h lo full =
    on_true (λ (m : M Answer). BlocksAs d w (m w)) (int_ltb (pos 0) envelope.max_actions_per_hour) _
      _ (rw h (more_than 0 k lo))
      (on_true (λ (m : M Answer). BlocksAs d w (m (counted_in env envelope w))) _ _ _
        (is_over envelope k (env.now w.readings) (bucket_of w.store envelope.id) h full)
        (stopped env input envelope d (counted_in env envelope w)))
