-- ===== src/Sdlc/Phases/Laws.antt =====
-- What the order of the phases gives: each known phase but `done` has a successor, one step on.
use forge_eng_fabric.Prelude.{ℕ, suc, ◌≡◌, ◌≢◌, ◌≤◌, refl, none, some, arith}
use forge_eng_fabric.Sdlc.Types.{Phase, product, done, unknown}
use forge_eng_fabric.Sdlc.Phases.{name, of_string, next_phase, phase_index}

-- The string of a known phase is read back as that phase.
pub of_string-name : (p : Phase) {i : ℕ} → phase_index p ≡ some i → of_string (name p) ≡ p
unfolding of_string name phase_index
of_string-name (unknown s) h = cc
of_string-name product h = refl
of_string-name _ h = refl

-- The successor of a phase is known and stands one index on.
pub index-next :
    (p q : Phase) {i : ℕ}
    → phase_index p ≡ some i
    → next_phase p ≡ some q
    → phase_index q ≡ some (suc i)
unfolding next_phase phase_index
index-next product q h k = ground arith
index-next _ q h k = ground arith

-- Every known phase but `done` has a successor.
pub next-total : (p : Phase) {i : ℕ} → phase_index p ≡ some i → p ≢ done → next_phase p ≢ none
unfolding next_phase phase_index
next-total done h d = absurd (d refl)
next-total (unknown s) h d = cc
next-total product h d = cc
next-total _ h d = cc

-- Two known phases at one index are the same.
pub index_injective :
    (p q : Phase) {i : ℕ} → phase_index p ≡ some i → phase_index q ≡ some i → p ≡ q
unfolding phase_index
index_injective product product h k = refl
index_injective p q h k = ground arith

pub index_done : phase_index done ≡ some 11
unfolding phase_index
index_done = refl

pub index-le : (p : Phase) {i : ℕ} → phase_index p ≡ some i → i ≤ 11
unfolding phase_index
index-le product h = ground arith
index-le _ h = ground arith
