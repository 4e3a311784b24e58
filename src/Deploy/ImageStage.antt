-- ===== src/Deploy/ImageStage.antt =====
-- service.go: runImageVerify, the verification of the image before it is deployed.
use forge_eng_fabric.Prelude.{
  ℕ, String, Bool, false, ◌&&◌, Option, none, some, ltb, string_eq, if◌then◌else◌,
}
use forge_eng_fabric.Prelude.Int.{pos}
use forge_eng_fabric.Prelude.State.{pure, ◌>>=◌, ◌>>◌}
use forge_eng_fabric.Prelude.Text.{◌+s◌}
use forge_eng_fabric.Prelude.Value.{str, end, field}
use forge_eng_fabric.Cosign.{ImageMetadata, Result, reason_name, is_success, combined}
use forge_eng_fabric.Deploy.Types.{
  image_verify, done, broken, skipped, Deployment, ImageVerificationResult,
}
use forge_eng_fabric.Deploy.Store.{set_verified, append_image_verification}
use forge_eng_fabric.Deploy.World.{
  Reply, ok, err, resolve_image, Service, override_consumed, image_rejected, image_verified, M,
  new_id, clock, write_store, ask, emit, emit_stage_event,
}
use forge_eng_fabric.Deploy.Stages.{override_for}

abbrev verification_of : String → String → Result → Bool → ImageVerificationResult
verification_of id deployment_id res signature = record {
  id = id;
  deployment_id = deployment_id;
  outcome = if signature then "success" else "failed";
  reason = reason_name res.reason;
  identity = res.identity;
  digest = res.digest;
  signature_verified = signature;
  attestation_verified = signature;
  override_id = "";
  created_at = 0;
}

-- runImageVerify, under an active override.
unfoldable pub skip_verification : Service → Deployment → ℕ → M (Option String)
skip_verification s d start = do
  write_store (set_verified d.id false false)
  id ← new_id s
  now ← clock s
  write_store (
      append_image_verification (record {
        id = id;
        deployment_id = d.id;
        outcome = "skipped";
        reason = "override_allow_unsigned_active";
        identity = "";
        digest = d.image_digest;
        signature_verified = false;
        attestation_verified = false;
        override_id = "";
        created_at = now.instant;
      }))
  ended ← clock s
  emit_stage_event s d image_verify skipped "override_allow_unsigned_active" end start ended.instant
  emit s d override_consumed
  pure none

-- The end of runImageVerify: what the verifier said of the image is stored and told.
unfoldable pub settle_verification : Service → Deployment → ℕ → Result → M (Option String)
settle_verification s d start res = do
  write_store (set_verified d.id (is_success res) (is_success res))
  id ← new_id s
  now ← clock s
  write_store (
      append_image_verification
        (record (verification_of id d.id res (is_success res)) { created_at = now.instant }))
  if is_success res
      then (do
        emit s d (image_verified res.identity res.digest)
        ended ← clock s
        emit_stage_event s d image_verify done "" (field "identity" (str res.identity) end) start
            ended.instant
        pure none)
      else do
        emit s d (image_rejected (reason_name res.reason))
        ended ← clock s
        emit_stage_event s d image_verify broken (reason_name res.reason) end start ended.instant
        pure (some ("image_verification_failed: " +s reason_name res.reason))

-- The metadata where no resolver is configured.
abbrev pub plain_metadata : Deployment → ImageMetadata
plain_metadata d = record {
  image = d.image;
  digest = d.image_digest;
  signed = false;
  oidc_issuer = "";
  oidc_identity = "";
  rekor_log_index = pos 0;
  has_rekor_entry = false;
  attestation_type = "";
  attestation_predicate = end;
  attestation_valid = false;
  built_at = 0;
}

unfoldable pub resolve_metadata : Service → Deployment → M (Reply ImageMetadata)
resolve_metadata s d = elim s.image_metadata [
  | none ↦ pure (ok (plain_metadata d))
  | some f ↦ ask (resolve_image d.image d.image_digest) (λ n. f n d.image d.image_digest)
]

-- runImageVerify, to an error or none.
unfoldable pub run_image_verify : Service → Deployment → M (Option String)
run_image_verify s d = do
  start ← clock s
  if (override_for s d).0 && ltb start.instant (override_for s d).1
      then skip_verification s d start.instant
      else do
        answer ← resolve_metadata s d
        elim answer [
          | err e ↦ pure (some ("metadata: " +s e))
          | ok meta ↦ settle_verification s d start.instant (combined s.cosign d.workspace_id meta)
        ]
