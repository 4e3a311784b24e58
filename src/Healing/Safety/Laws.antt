-- ===== src/Healing/Safety/Laws.antt =====
-- What the safety gate lets pass.
use forge_eng_fabric.Prelude.{String, Bool, true, false, List, Option, none, some, any}
use forge_eng_fabric.Prelude.Text.{contains}
use forge_eng_fabric.Healing.Types.{
  FileDiff, SafetyEvalResult, passed, size_budget_exceeded, protected_path_violation,
  secret_reference_detected,
}
use forge_eng_fabric.Healing.Safety.{secret_patterns, combined}

-- Some diff is at a path that contains a protected path.
abbrev pub touches_protected : List String → List FileDiff → Bool
touches_protected protected_paths diffs =
    any (λ d. any (λ pp. contains d.path pp) protected_paths) diffs

-- Some diff has, before or after it, what looks like a secret.
abbrev pub shows_secret : List FileDiff → Bool
shows_secret diffs = any (λ d. any (λ pat. contains (combined d) pat) secret_patterns) diffs

-- Whether a search has found something.
abbrev found : {A : Type 0} → Option A → Bool
found none = false
found (some a) = true

-- Whether the verdict is that the fix passes.
abbrev pub is_passed : SafetyEvalResult → Bool
is_passed passed = true
is_passed (size_budget_exceeded a b) = false
is_passed (protected_path_violation a b) = false
is_passed (secret_reference_detected a b) = false
