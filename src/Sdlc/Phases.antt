-- ===== src/Sdlc/Phases.antt =====
-- types.go: the order of the phases.
pub mod Laws
use forge_eng_fabric.Prelude.{
  ℕ, zero, suc, ◌+◌, String, Bool, true, false, List, [], ◌∷◌, Option, none, some, length, ltb,
  ◌==◌, string_eq, if◌then◌else◌,
}
use forge_eng_fabric.Sdlc.Types.{
  Phase, product, architecture, design, development, qa, security, devops, infrastructure, sre,
  finops, observability, done, unknown, phase_eq, Phase-discrete,
}

abbrev pub ordered_phases : List Phase
ordered_phases =
    product ∷ architecture ∷ design ∷ development ∷ qa ∷ security ∷ devops ∷ infrastructure ∷ sre
    ∷ finops ∷ observability ∷ []

-- The string of a phase.
unfoldable pub name : Phase → String
name product = "product"
name architecture = "architecture"
name design = "design"
name development = "development"
name qa = "qa"
name security = "security"
name devops = "devops"
name infrastructure = "iac"
name sre = "sre"
name finops = "finops"
name observability = "observability"
name done = "done"
name (unknown s) = s

find_name : List Phase → String → Phase
find_name [] s = unknown s
find_name (p ∷ ps) s = let rest = find_name ps s in if name p == s then p else rest

-- `Phase(s)`
unfoldable pub of_string : String → Phase
unfolding find_name name
of_string s = find_name (done ∷ ordered_phases) s

-- The loop of `NextPhase` from a candidate on: the last one is followed by `done`.
next_in : List Phase → Phase → Option Phase
next_in [] p = none
next_in (q ∷ []) p = if q == p then some done else none
next_in (q ∷ r ∷ qs) p = let rest = next_in (r ∷ qs) p in if q == p then some r else rest

-- `none` is `("", false)`.
unfoldable pub next_phase : Phase → Option Phase
unfolding next_in Phase-discrete
next_phase p = next_in ordered_phases p

-- The loop of `PhaseIndex`, which has come to index `i`.
index_in : ℕ → List Phase → Phase → Option ℕ
index_in i [] p = none
index_in i (q ∷ qs) p = let rest = index_in (i + 1) qs p in if q == p then some i else rest

-- `none` is -1.
unfoldable pub phase_index : Phase → Option ℕ
unfolding index_in Phase-discrete
phase_index p = if p == done then some (length ordered_phases) else index_in 0 ordered_phases p

-- `i < j` on such indices.
abbrev pub index_lt : Option ℕ → Option ℕ → Bool
index_lt none none = false
index_lt none (some j) = true
index_lt (some i) none = false
index_lt (some i) (some j) = ltb i j
