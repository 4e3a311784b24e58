-- ===== src/Registry/Diff/Marks.antt =====
-- diff.go: the marks that a difference makes, and the maps that are compared.
use forge_eng_fabric.Prelude.{
  String, Bool, true, false, ◌&&◌, List, [], ◌∷◌, ◌++◌, Option, none, some, any, ◌==◌, string_eq,
  if◌then◌else◌,
}
use forge_eng_fabric.Prelude.Assoc.{lookup, insert}
use forge_eng_fabric.Prelude.Text.{◌+s◌}
use forge_eng_fabric.Workflow.Ast.{Step, IoField, Trigger}
use forge_eng_fabric.Registry.SemVer.{BumpKind, bump_major, bump_minor, bump_patch}

pub record DiffResult : Type 0 where
  pub bump : BumpKind
  pub reasons : List String
  pub major : Bool
  pub minor : Bool

-- appendOnce
unfoldable pub append_once : List String → String → List String
append_once reasons v = if any (λ x. x == v) reasons then reasons else reasons ++ v ∷ []

-- markMajor
unfoldable pub mark_major : String → DiffResult → DiffResult
unfolding append_once
mark_major reason d = record d {
  bump = bump_major;
  major = true;
  reasons = append_once d.reasons reason;
}

abbrev pub raised : BumpKind → BumpKind
raised bump_major = bump_major
raised bump_minor = bump_minor
raised bump_patch = bump_minor

abbrev pub minor_seen : BumpKind → Bool → Bool
minor_seen bump_major minor = minor
minor_seen bump_minor minor = true
minor_seen bump_patch minor = true

-- markMinor
unfoldable pub mark_minor : String → DiffResult → DiffResult
unfolding append_once
mark_minor reason d = record d {
  bump = raised d.bump;
  minor = minor_seen d.bump d.minor;
  reasons = append_once d.reasons reason;
}

-- markPatchMigration
unfoldable pub mark_patch_migration : String → DiffResult → DiffResult
unfolding append_once
mark_patch_migration reason d = record d { reasons = append_once d.reasons reason }

-- `if test { mark }`
unfoldable pub mark_if : Bool → (DiffResult → DiffResult) → DiffResult → DiffResult
mark_if test mark d = if test then mark d else d

-- `for … := range m { … }`
module _ {A : Type 0} (body : A → DiffResult → DiffResult) where
  unfoldable pub each : List A → DiffResult → DiffResult
  each [] d = d
  each (x ∷ xs) d = each xs (body x d)

-- `out[key(x)] = x` for each x of a slice
module _ {A : Type 0} (key : A → String) where
  unfoldable pub index_by : List A → List (String × A) → List (String × A)
  index_by [] m = m
  index_by (x ∷ xs) m = index_by xs (insert (key x) x m)

-- indexIO
unfoldable pub index_io : List IoField → List (String × IoField)
unfolding index_by
index_io fields = index_by (λ f. f.name) fields []

-- indexSteps
unfoldable pub index_steps : List Step → List (String × Step)
unfolding index_by
index_steps steps = index_by (λ s. s.id) steps []

-- indexTriggers
unfoldable pub index_triggers : List Trigger → List (String × Trigger)
unfolding index_by
index_triggers triggers = index_by (λ t. t.id) triggers []

abbrev pub same_strings : List String → List String → Bool
same_strings [] [] = true
same_strings [] (y ∷ ys) = false
same_strings (x ∷ xs) [] = false
same_strings (x ∷ xs) (y ∷ ys) = x == y && same_strings xs ys

-- reflect.DeepEqual of two slices of strings: a nil slice is not an empty one.
abbrev pub same_slice : Option (List String) → Option (List String) → Bool
same_slice none none = true
same_slice none (some ys) = false
same_slice (some xs) none = false
same_slice (some xs) (some ys) = same_strings xs ys

-- `if _, ok := m[key]; !ok { mark(reason) }`, for a key of another map
module _ {V W : Type 0} where
  unfoldable pub mark_absent :
      (String → DiffResult → DiffResult)
      → String
      → List (String × V)
      → String × W
      → DiffResult
      → DiffResult
  mark_absent mark prefix m (key, w) d = elim (lookup key m) as (λ _. DiffResult) [
    | none ↦ mark (prefix +s key) d
    | some v ↦ d
  ]

abbrev pub no_change : DiffResult
no_change = record { bump = bump_patch; reasons = []; major = false; minor = false }
