-- ===== src/Cosign.antt =====
-- pkg/cosign/cosign.go: the checks of an image's signature and attestation.
pub mod Laws
use forge_eng_fabric.Prelude.{
  ℕ, String, Bool, true, false, not, ◌&&◌, Option, none, some, List, ◌==◌, string_eq, if◌then◌else◌,
}
use forge_eng_fabric.Prelude.Int.{ℤ, pos}
use forge_eng_fabric.Prelude.Assoc.{lookup, insert}
use forge_eng_fabric.Prelude.Text.{equal_fold, ◌+s◌}
use forge_eng_fabric.Prelude.Value.{Fields}

pub data Outcome : Type 0 where
  success failed : Outcome

pub data FailReason : Type 0 where
  no_reason identity_mismatch rekor_entry_missing digest_mismatch : FailReason
  unsigned_image attestation_invalid : FailReason

abbrev pub reason_name : FailReason → String
reason_name no_reason = ""
reason_name identity_mismatch = "identity_mismatch"
reason_name rekor_entry_missing = "rekor_entry_missing"
reason_name digest_mismatch = "digest_mismatch"
reason_name unsigned_image = "unsigned_image"
reason_name attestation_invalid = "attestation_invalid"

pub record ImageMetadata : Type 0 where
  pub image : String
  pub digest : String
  pub signed : Bool
  pub oidc_issuer : String
  pub oidc_identity : String
  pub rekor_log_index : ℤ
  pub has_rekor_entry : Bool
  pub attestation_type : String
  pub attestation_predicate : Fields
  pub attestation_valid : Bool
  pub built_at : ℕ

-- A regular expression is its test on texts.
pub record IdentityRule : Type 0 where
  pub issuer_exact : String
  pub identity_regexp : Option (String → Bool)
  pub data_classification : String

-- What the registry expects of an image's digest, or the text of an error.
pub data Expected : Type 0 where
  expected_digest lookup_error : String → Expected

-- `Registry` is nil where it is not configured.
pub record Verifier : Type 0 where
  pub identities : List (String × IdentityRule)
  pub registry : Option (String → Expected)

pub record Result : Type 0 where
  pub outcome : Outcome
  pub reason : FailReason
  pub detail : String
  pub identity : String
  pub rekor_index : ℤ
  pub digest : String

-- WorkspaceIdentities.Configure
unfoldable pub configure :
    String → IdentityRule → List (String × IdentityRule) → List (String × IdentityRule)
configure workspace_id rule rules = insert workspace_id rule rules

abbrev fails : FailReason → String → String → String → Result
fails reason detail identity digest = record {
  outcome = failed;
  reason = reason;
  detail = detail;
  identity = identity;
  rekor_index = pos 0;
  digest = digest;
}

abbrev matches : Option (String → Bool) → String → Bool
matches none identity = true
matches (some re) identity = re identity

-- The two checks of a workspace's rule.
unfoldable pub check_identity : IdentityRule → ImageMetadata → Option Result
check_identity rule m =
    if not (rule.issuer_exact == "") && not (rule.issuer_exact == m.oidc_issuer)
    then some (fails identity_mismatch "issuer mismatch" m.oidc_identity "")
    else if not (matches rule.identity_regexp m.oidc_identity)
    then some
        (fails identity_mismatch "identity does not match expected pattern" m.oidc_identity "")
    else none

unfoldable pub check_workspace : Verifier → String → ImageMetadata → Option Result
unfolding check_identity
check_workspace v workspace_id m = elim (lookup workspace_id v.identities) [
  | none ↦ none
  | some rule ↦ check_identity rule m
]

abbrev or_else : Option Result → Result → Result
or_else none r = r
or_else (some r) s = r

-- Verify
unfoldable pub verify_signature : Verifier → String → ImageMetadata → Result
unfolding check_workspace
verify_signature v workspace_id m =
    if not m.signed
    then fails unsigned_image "image is unsigned" "" ""
    else or_else (check_workspace v workspace_id m) (
        if not m.has_rekor_entry
        then fails rekor_entry_missing "missing rekor entry" "" ""
        else record {
          outcome = success;
          reason = no_reason;
          detail = "";
          identity = m.oidc_identity;
          rekor_index = m.rekor_log_index;
          digest = m.digest;
        })

unfoldable pub check_digest : Expected → ImageMetadata → Option Result
check_digest (lookup_error e) m = some (fails attestation_invalid ("registry lookup: " +s e) "" "")
check_digest (expected_digest expected) m =
    if not (expected == "") && not (equal_fold expected m.digest)
    then some (
        fails digest_mismatch ("registry expected " +s expected +s " got " +s m.digest) "" m.digest)
    else none

unfoldable pub check_registry : Verifier → ImageMetadata → Option Result
unfolding check_digest
check_registry v m = elim v.registry [ none ↦ none | some f ↦ check_digest (f m.image) m ]

unfoldable pub verify_attestation : Verifier → ImageMetadata → Result
unfolding check_registry
verify_attestation v m =
    if not (m.attestation_type == "slsaprovenance")
    then fails attestation_invalid ("attestation_type=" +s m.attestation_type) "" ""
    else if not m.attestation_valid
    then fails attestation_invalid "attestation invalid" "" ""
    else or_else (check_registry v m) (record {
      outcome = success;
      reason = no_reason;
      detail = "";
      identity = "";
      rekor_index = pos 0;
      digest = m.digest;
    })

abbrev pub is_success : Result → Bool
is_success r = elim r.outcome [ success ↦ true | failed ↦ false ]

-- Combined: "first failure wins".
unfoldable pub combined : Verifier → String → ImageMetadata → Result
unfolding verify_signature verify_attestation
combined v workspace_id m =
    let r = verify_signature v workspace_id m in
    if not (is_success r) then r else verify_attestation v m
