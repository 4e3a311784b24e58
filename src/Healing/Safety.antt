-- ===== src/Healing/Safety.antt =====
-- l1l2.go: the safety gate of a proposed fix.
pub mod Laws
use forge_eng_fabric.Prelude.{
  String, Bool, true, false, ◌||◌, List, [], ◌∷◌, Option, none, some, first, ◌==◌, string_eq,
  if◌then◌else◌,
}
use forge_eng_fabric.Prelude.Int.{ℤ, pos, int_ltb, add_int}
use forge_eng_fabric.Prelude.Text.{to_lower, contains, ◌+s◌}
use forge_eng_fabric.Healing.Types.{
  FileDiff, ProposedFix, SafetyEvalResult, passed, size_budget_exceeded, protected_path_violation,
  secret_reference_detected,
}

abbrev pub secret_patterns : List String
secret_patterns = "password=" ∷ "secret=" ∷ "api_key=" ∷ "token=" ∷ []

unfoldable pub total_lines : List FileDiff → ℤ
total_lines [] = pos 0
total_lines (d ∷ ds) = add_int d.lines_changed (total_lines ds)

-- The first protected pattern that the path contains.
unfoldable pub violated : List String → String → Option String
violated protected_paths path = first (λ pp. contains path pp) protected_paths

-- "2. Protected paths."
unfoldable pub find_violation : List String → List FileDiff → Option (String × String)
unfolding violated
find_violation protected_paths [] = none
find_violation protected_paths (d ∷ ds) =
    let rest = find_violation protected_paths ds in
    elim (violated protected_paths d.path) [ some pp ↦ some (d.path, pp) | none ↦ rest ]

abbrev pub combined : FileDiff → String
combined d = to_lower (d.before +s "\n" +s d.after)

-- "3. Secret references in diff content."
unfoldable pub find_secret : List FileDiff → Option (String × String)
find_secret [] = none
find_secret (d ∷ ds) =
    let rest = find_secret ds in
    elim (first (λ pat. contains (combined d) pat) secret_patterns) [
      | some pat ↦ some (pat, d.path)
      | none ↦ rest
    ]

unfoldable pub safety_eval : ProposedFix → List String → ℤ → SafetyEvalResult
unfolding total_lines find_violation find_secret
safety_eval fix protected_paths size_budget =
    if int_ltb size_budget (total_lines fix.file_diffs)
    then size_budget_exceeded (total_lines fix.file_diffs) size_budget
    else elim (find_violation protected_paths fix.file_diffs) [
      | some (path, pp) ↦ protected_path_violation path pp
      | none ↦ elim (find_secret fix.file_diffs) [
        | some (pat, path) ↦ secret_reference_detected pat path
        | none ↦ passed
      ]
    ]
