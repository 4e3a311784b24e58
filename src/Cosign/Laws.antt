-- ===== src/Cosign/Laws.antt =====
-- Which images are verified.
use forge_eng_fabric.Prelude.{
  ◌≡◌, refl, ap, ap₂, ◌∙◌, String, Bool, true, false, not, ◌&&◌, ◌||◌, Option, none, some, ◌==◌,
  string_eq, if◌then◌else◌, Bool-cases, inl, inr,
}
use forge_eng_fabric.Prelude.Assoc.{lookup}
use forge_eng_fabric.Prelude.Text.{equal_fold}
use forge_eng_fabric.Cosign.{
  ImageMetadata, IdentityRule, Expected, expected_digest, lookup_error, Verifier, Result, matches,
  check_identity, check_workspace, verify_signature, check_digest, check_registry,
  verify_attestation, is_success, combined, or_else,
}

-- The image comes from whom the workspace's rule, if it has one, expects.
abbrev pub identity_fits : Option IdentityRule → ImageMetadata → Bool
identity_fits none m = true
identity_fits (some rule) m =
    (rule.issuer_exact == "" || rule.issuer_exact == m.oidc_issuer)
    && matches rule.identity_regexp m.oidc_identity

gated :
    (b : Bool) (bad r : Result)
    → is_success bad ≡ false
    → is_success (if not b then bad else r) ≡ (b && is_success r)
gated true bad r h = refl
gated false bad r h = h

-- A check that finds nothing passes.
abbrev passes : Option Result → Bool
passes none = true
passes (some r) = false

-- What a check finds is a failure.
abbrev Fails : Option Result → Type 0
Fails none = Unit
Fails (some r) = is_success r ≡ false

and_true : (b : Bool) → (b && true) ≡ b
and_true true = refl
and_true false = refl

chained :
    (o : Option Result) (r : Result)
    → Fails o
    → is_success (or_else o r) ≡ (passes o && is_success r)
chained none r h = refl
chained (some x) r h = h

gate :
    (b : Bool) (bad : Result) (o : Option Result)
    → passes (if b then some bad else o) ≡ (not b && passes o)
gate true bad o = refl
gate false bad o = refl

gate-Fails :
    (b : Bool) (bad : Result) (o : Option Result)
    → is_success bad ≡ false
    → Fails o
    → Fails (if b then some bad else o)
gate-Fails true bad o h k = h
gate-Fails false bad o h k = k

neither : (a b : Bool) → not (not a && not b) ≡ (a || b)
neither true b = refl
neither false true = refl
neither false false = refl

double_negation : (c : Bool) → (not (not c) && true) ≡ c
double_negation true = refl
double_negation false = refl

rule_passes :
    (rule : IdentityRule) (m : ImageMetadata)
    → passes (check_identity rule m) ≡ identity_fits (some rule) m
unfolding check_identity
rule_passes rule m =
    gate _ _ _
    ∙ ap₂ (λ a b. a && b) (neither (rule.issuer_exact == "") (rule.issuer_exact == m.oidc_issuer))
        (gate (not (matches rule.identity_regexp m.oidc_identity)) _ none
          ∙ double_negation (matches rule.identity_regexp m.oidc_identity))

rule-Fails : (rule : IdentityRule) (m : ImageMetadata) → Fails (check_identity rule m)
unfolding check_identity
rule-Fails rule m =
    gate-Fails _ _ _ refl
      (gate-Fails (not (matches rule.identity_regexp m.oidc_identity)) _ none refl tt)

workspace_checks :
    (v : Verifier) (workspace_id : String) (m : ImageMetadata)
    → (passes (check_workspace v workspace_id m)
        ≡ identity_fits (lookup workspace_id v.identities) m)
      × Fails (check_workspace v workspace_id m)
unfolding check_workspace
workspace_checks v workspace_id m = by_rule (lookup workspace_id v.identities)
  where
    by_rule :
        (o : Option IdentityRule)
        → (passes
              (elim o as (λ _. Option Result) [ none ↦ none | some rule ↦ check_identity rule m ])
            ≡ identity_fits o m)
          × Fails
              (elim o as (λ _. Option Result) [ none ↦ none | some rule ↦ check_identity rule m ])
    by_rule none = (refl, tt)
    by_rule (some rule) = (rule_passes rule m, rule-Fails rule m)

expects : Expected → ImageMetadata → Bool
expects (lookup_error e) m = false
expects (expected_digest d) m = d == "" || equal_fold d m.digest

digest_checks :
    (e : Expected) (m : ImageMetadata)
    → (passes (check_digest e m) ≡ expects e m) × Fails (check_digest e m)
unfolding check_digest expects
digest_checks (lookup_error e) m = (refl, refl)
digest_checks (expected_digest d) m = (
  gate _ _ none ∙ and_true _ ∙ neither (d == "") (equal_fold d m.digest),
  gate-Fails (not (d == "") && not (equal_fold d m.digest)) _ none refl tt,
)

-- The registry, if there is one, expects this digest or none.
unfoldable pub digest_fits : Option (String → Expected) → ImageMetadata → Bool
unfolding expects
digest_fits none m = true
digest_fits (some f) m = expects (f m.image) m

registry_checks :
    (v : Verifier) (m : ImageMetadata)
    → (passes (check_registry v m) ≡ digest_fits v.registry m) × Fails (check_registry v m)
unfolding check_registry digest_fits
registry_checks v m = by_registry v.registry
  where
    by_registry :
        (o : Option (String → Expected))
        → (passes
              (elim o as (λ _. Option Result) [ none ↦ none | some f ↦ check_digest (f m.image) m ])
            ≡ digest_fits o m)
          × Fails
              (elim o as (λ _. Option Result) [ none ↦ none | some f ↦ check_digest (f m.image) m ])
    by_registry none = (refl, tt)
    by_registry (some f) = digest_checks (f m.image) m

signature_holds :
    (v : Verifier) (workspace_id : String) (m : ImageMetadata)
    → is_success (verify_signature v workspace_id m)
      ≡ (m.signed && (identity_fits (lookup workspace_id v.identities) m && m.has_rekor_entry))
unfolding verify_signature
signature_holds v workspace_id m =
    let w = workspace_checks v workspace_id m in
    gated m.signed _ _ refl
    ∙ ap (λ b. m.signed && b)
        (chained _ _ w.1
          ∙ ap₂ (λ a b. a && b) w.0 (gated m.has_rekor_entry _ _ refl ∙ and_true m.has_rekor_entry))

attestation_holds :
    (v : Verifier) (m : ImageMetadata)
    → is_success (verify_attestation v m) ≡ (
        (m.attestation_type == "slsaprovenance")
        && (m.attestation_valid && digest_fits v.registry m))
unfolding verify_attestation
attestation_holds v m =
    let r = registry_checks v m in
    gated (m.attestation_type == "slsaprovenance") _ _ refl
    ∙ ap (λ b. (m.attestation_type == "slsaprovenance") && b)
        (gated m.attestation_valid _ _ refl
          ∙ ap (λ b. m.attestation_valid && b)
              (chained _ _ r.1 ∙ and_true (passes (check_registry v m)) ∙ r.0))

first_failure :
    (r s : Result)
    → is_success (if not (is_success r) then r else s) ≡ (is_success r && is_success s)
first_failure r s = elim (Bool-cases (is_success r)) [ inl h ↦ rw h refl | inr h ↦ rw h h ]

-- An image is verified exactly where it is signed, its issuer and identity fit the workspace's rule
-- (if it has one), it has an entry in Rekor and a valid SLSA provenance, and it has the digest that the
-- registry expects (if it expects one). The rule's data classification is not asked, nor in which
-- Rekor the entry is.
pub combined-Verifies :
    (v : Verifier) (workspace_id : String) (m : ImageMetadata)
    → is_success (combined v workspace_id m) ≡ (
        (m.signed && (identity_fits (lookup workspace_id v.identities) m && m.has_rekor_entry))
        && ((m.attestation_type == "slsaprovenance")
            && (m.attestation_valid && digest_fits v.registry m)))
unfolding combined
combined-Verifies v workspace_id m =
    first_failure (verify_signature v workspace_id m) (verify_attestation v m)
    ∙ ap₂ (λ a b. a && b) (signature_holds v workspace_id m) (attestation_holds v m)
