-- ===== src/Sdlc/Store.antt =====
-- store.go and the state that the service's calls share: the stored initiatives, the events that
-- were emitted, and how many identifiers and clock readings were drawn. What `Get`, `Insert` and
-- `Update` hand out are clones, so a change to them does not reach the store.
pub mod Frames
use forge_eng_fabric.Prelude.{
  ℕ, suc, String, Bool, false, true, ◌&&◌, not, List, [], ◌∷◌, ◌++◌, Option, none, some, map, keep,
  first, ltb, ◌==◌, nat_eq, string_eq, if◌then◌else◌,
}
use forge_eng_fabric.Prelude.Assoc.{lookup, insert}
use forge_eng_fabric.Prelude.Value.{Fields}
use forge_eng_fabric.Sdlc.Types.{
  Phase, phase_eq, PhaseState, Initiative, Error, initiative_not_found, Result, ok, err,
  Phase-discrete,
}

-- events.go: the envelope of an event.
pub record CloudEvent : Type 0 where
  pub spec_version : String
  pub id : String
  pub source : String
  pub event_type : String
  pub subject : String
  pub time : ℕ
  pub content_type : String
  pub tenant_id : String
  pub workspace_id : String
  pub actor : String
  pub correlation_id : String
  pub content : Fields

-- The n-th identifier of `uuid.NewString` and the n-th reading of the clock.
pub record Env : Type 0 where
  pub uuid : ℕ → String
  pub now : ℕ → ℕ

pub record World : Type 0 where
  pub initiatives : List (String × Initiative)
  pub events : List CloudEvent
  pub ids : ℕ
  pub readings : ℕ

-- A call changes the world, also where it ends in an error.
abbrev pub M : Type 0 → Type 0
M A = World → Result A × World

unfoldable pub pure : {A : Type 0} → A → M A
pure a w = (ok a, w)

unfoldable pub raise : {A : Type 0} → Error → M A
raise e w = (err e, w)

unfoldable pub continue : {A B : Type 0} → Result A × World → (A → M B) → Result B × World
continue (ok a, w) f = f a w
continue (err e, w) f = (err e, w)

infixl 5 ◌>>=◌ ◌>>◌
unfoldable pub ◌>>=◌ : {A B : Type 0} → M A → (A → M B) → M B
◌>>=◌ m f w = continue (m w) f

unfoldable pub ◌>>◌ : {B : Type 0} → M (Unit {0}) → M B → M B
◌>>◌ m k = m >>= λ _. k

-- `nil` and a missing entry as an error.
unfoldable pub or_raise : {A : Type 0} → Error → Option A → M A
or_raise e none = raise e
or_raise e (some a) = pure a

unfoldable pub of_result : {A : Type 0} → Result A → M A
of_result r w = (r, w)

-- A branch on a pointer or a comma-ok result.
unfoldable pub maybe : {A B : Type 0} → Option A → M B → (A → M B) → M B
maybe none m f = m
maybe (some a) m f = f a

unfoldable pub new_id : Env → M String
new_id env w = (ok (env.uuid w.ids), record w { ids = suc w.ids })

unfoldable pub clock : Env → M ℕ
clock env w = (ok (env.now w.readings), record w { readings = suc w.readings })

-- MemorySink.Emit; the service ignores the result of `Emit`.
unfoldable pub emit : CloudEvent → M (Unit {0})
emit event w = (ok tt, record w { events = w.events ++ event ∷ [] })

unfoldable pub put : Initiative → M (Unit {0})
put it w = (ok tt, record w { initiatives = insert it.id it w.initiatives })

unfoldable pub insert_initiative : Env → Initiative → M Initiative
insert_initiative env it = do
  id ← (if it.id == "" then new_id env else pure it.id)
  t ← clock env
  let stored = record it {
    id = id;
    created_at = if it.created_at == 0 then t else it.created_at;
    updated_at = t;
  }
  put stored
  pure stored

unfoldable pub find_initiative : String → M (Option Initiative)
find_initiative id w = (ok (lookup id w.initiatives), w)

unfoldable pub update_initiative : Env → Initiative → M Initiative
update_initiative env it = do
  t ← clock env
  let stored = record it { updated_at = t }
  put stored
  pure stored

-- The sort by `CreatedAt`, latest first, that `List` ends in; equal times keep the order of the walk.
insert_latest : Initiative → List Initiative → List Initiative
insert_latest a [] = a ∷ []
insert_latest a (b ∷ bs) =
    let rest = insert_latest a bs in if ltb a.created_at b.created_at then b ∷ rest else a ∷ b ∷ bs

latest_first : List Initiative → List Initiative
latest_first [] = []
latest_first (a ∷ rest) = insert_latest a (latest_first rest)

stored : List (String × Initiative) → List Initiative
stored [] = []
stored ((k, it) ∷ rest) = it ∷ stored rest

unfoldable pub list_initiatives : String → World → List Initiative
unfolding insert_latest latest_first stored
list_initiatives workspace w = latest_first (
    keep (λ it. not (not (workspace == "") && not (it.workspace_id == workspace)))
      (stored w.initiatives))

-- phaseState: the first state of the phase.
unfoldable pub phase_state : List PhaseState → Phase → Option PhaseState
unfolding Phase-discrete
phase_state states phase = first (λ s. s.phase == phase) states

-- A write through the pointer that `phaseState` returns.
unfoldable pub with_state : Phase → (PhaseState → PhaseState) → List PhaseState → List PhaseState
with_state phase f [] = []
with_state phase f (s ∷ ss) =
    let rest = with_state phase f ss in if s.phase == phase then f s ∷ ss else s ∷ rest
