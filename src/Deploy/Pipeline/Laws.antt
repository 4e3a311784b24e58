-- ===== src/Deploy/Pipeline/Laws.antt =====
-- What stands between a request and the cluster.
use forge_eng_fabric.Prelude.{
  ℕ, ◌≡◌, ◌≢◌, refl, sym, ap, ◌∙◌, String, Bool, true, false, ◌&&◌, Option, none, some, length, ltb,
  if◌then◌else◌, string_eq,
}
use forge_eng_fabric.Prelude.State.{pure, Gives, Gives-pure, Gives-when, Gives-bind}
use forge_eng_fabric.Prelude.Text.{◌+s◌}
use forge_eng_fabric.Cosign.{ImageMetadata, Result, is_success, combined}
use forge_eng_fabric.Cosign.Laws.{combined-Verifies}
use forge_eng_fabric.Deploy.Policies.{DeployRequest}
use forge_eng_fabric.Deploy.Types.{Deployment}
use forge_eng_fabric.Deploy.World.{resolve_image, Reply, ok, err, Service, World, Call, M, ask}
use forge_eng_fabric.Deploy.Stages.{override_for}
use forge_eng_fabric.Deploy.ImageStage.{
  plain_metadata, settle_verification, resolve_metadata, run_image_verify,
}
use forge_eng_fabric.Deploy.Pipeline.{deploy}
use forge_eng_fabric.Deploy.Pipeline.Frames.{applications}
use forge_eng_fabric.Deploy.Pipeline.Guards.{Same-unverified, Same-decided, Same-deploy}

-- No override lets unsigned images pass, and whatever the image registry says of an image, it is that
-- the image is unsigned.
pub record Unsigned (s : Service) : Type 0 where
  pub no_override : (d : Deployment) → (override_for s d).0 ≡ false
  pub unsigned :
      (f : ℕ → String → String → Reply ImageMetadata) (n : ℕ) (image digest : String)
      (m : ImageMetadata)
      → s.image_metadata ≡ some f
      → f n image digest ≡ ok m
      → m.signed ≡ false

module _ {A : Type 0} (Q : A → Type 0) where
  Gives-ask : (c : Call) (answer : ℕ → A) → ((n : ℕ) → Q (answer n)) → Gives Q (ask c answer)
  unfolding ask
  Gives-ask c answer h = record { at = λ w. h (length w.calls) }

  Gives-else : (b : Bool) (m n : M A) → b ≡ false → Gives Q n → Gives Q (if b then m else n)
  Gives-else true m n h k = cc
  Gives-else false m n h k = k

abbrev IsError : Option String → Type 0
IsError o = o ≢ none

some-IsError : (e : String) → IsError (some e)
some-IsError e h = cc

-- Whatever metadata is resolved, it is that of an unsigned image.
abbrev SaysUnsigned : Reply ImageMetadata → Type 0
SaysUnsigned a = (m : ImageMetadata) → a ≡ ok m → m.signed ≡ false

ok_injective : (a b : ImageMetadata) → ok a ≡ ok b → a ≡ b
ok_injective a b h = cc

module _ (s : Service) where
  not_success :
      (d : Deployment) (m : ImageMetadata)
      → m.signed ≡ false
      → is_success (combined s.cosign d.workspace_id m) ≡ false
  not_success d m h = combined-Verifies s.cosign d.workspace_id m ∙ rw h refl

  rejected :
      (d : Deployment) (t : ℕ) (r : Result)
      → is_success r ≡ false
      → Gives IsError (settle_verification s d t r)
  unfolding settle_verification
  rejected d t r h = Gives-bind _ _ (λ u. Gives-bind _ _ (λ id. Gives-bind _ _ (λ now.
      Gives-bind _ _ (λ u. Gives-else IsError _ _ _ h (
        Gives-bind _ _
          (λ u. Gives-bind _ _ (λ e. Gives-bind _ _ (λ u. Gives-pure _ (some-IsError _)))))))))

  says_unsigned : Unsigned s → (d : Deployment) → Gives SaysUnsigned (resolve_metadata s d)
  unfolding resolve_metadata
  says_unsigned u d = of_resolver s.image_metadata refl
    where
      of_resolver :
          (o : Option (ℕ → String → String → Reply ImageMetadata))
          → s.image_metadata ≡ o
          → Gives SaysUnsigned (elim o as (λ _. M (Reply ImageMetadata)) [
            | none ↦ pure (ok (plain_metadata d))
            | some f ↦ ask (resolve_image d.image d.image_digest) (λ n. f n d.image d.image_digest)
          ])
      of_resolver none q =
          Gives-pure _ (λ m e.
            ap (λ (x : ImageMetadata). x.signed) (sym (ok_injective (plain_metadata d) m e)))
      of_resolver (some f) q = Gives-ask SaysUnsigned _ _ (λ n m e. u.unsigned f n _ _ m q e)

  Unsigned-IsError : Unsigned s → (d : Deployment) → Gives IsError (run_image_verify s d)
  unfolding run_image_verify
  Unsigned-IsError u d = Gives-bind _ _ (λ start.
      Gives-else IsError _ _ _
        (ap (λ b. b && ltb start.instant (override_for s d).1) (u.no_override d))
        (Gives-when SaysUnsigned _ _ (says_unsigned u d) (resolved start.instant)))
    where
      resolved :
          (start : ℕ) (r : Reply ImageMetadata)
          → SaysUnsigned r
          → Gives IsError (elim r as (λ _. M (Option String)) [
            | err e ↦ pure (some ("metadata: " +s e))
            | ok meta ↦ settle_verification s d start (combined s.cosign d.workspace_id meta)
          ])
      resolved start (err e) h = Gives-pure _ (some-IsError _)
      resolved start (ok meta) h = rejected d start _ (not_success d meta (h meta refl))

-- Where no override lets unsigned images pass and the image registry reports no image as signed, a
-- deploy request applies nothing to any cluster.
pub Unsigned-applies_nothing :
    (s : Service) (req : DeployRequest) (w : World)
    → Unsigned s
    → applications (deploy s req w).1 ≡ applications w
Unsigned-applies_nothing s req w u =
    (Same-deploy s req (λ d c r.
        Same-decided s req d c r (λ _. Unit) (record { at = λ w. tt })
          (λ p q e. Same-unverified s req d c r (Unsigned-IsError s u d)))).at
      w
