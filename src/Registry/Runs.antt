-- ===== src/Registry/Runs.antt =====
-- service.go: calls in the order in which they get the lock, and the register that they write.
pub mod Places
pub mod Laws
use forge_eng_fabric.Prelude.{
  String, Bool, true, false, ◌&&◌, List, [], ◌∷◌, Option, none, some, ◌≡◌, ◌==◌, string_eq,
  if◌then◌else◌,
}
use forge_eng_fabric.Prelude.Assoc.{lookup}
use forge_eng_fabric.Registry.Service.{
  Version, Env, World, CreateWorkflowRequest, create_workflow, Result, ok, err, Error,
}
use forge_eng_fabric.Registry.Publish.{PublishVersionRequest, versions_of, publish_version}

-- A call that may change the store.
pub data Call : Type 0 where
  creates : CreateWorkflowRequest → Call
  publishes : PublishVersionRequest → Call

unfoldable pub after_call : Env → Call → World → World
after_call env (creates req) w = (create_workflow env req w).1
after_call env (publishes req) w = (publish_version env req w).1

-- NewService
abbrev pub empty : World
empty = record { workflows = []; versions = []; events = []; ids = 0; readings = 0 }

-- What a workflow holds under each text of a version.
abbrev pub Register : Type 0
Register = String → String → Option Version

unfoldable pub view : World → Register
view w id text = lookup text (versions_of w id)

-- The register with one more place written.
abbrev pub written : String → String → Version → Register → Register
written at name v r id text = if at == id && name == text then some v else r id text

-- What a register that is written once does for a call, by the answer: a version is written at a
-- place that was free, under its own number, and nothing else changes; an error changes nothing.
pub data Answers (at : String) (r : Register) : Result Version → Register → Type 0 where
  keeps :
      {r' : Register} (e : Error)
      → ((id text : String) → r' id text ≡ r id text)
      → Answers at r (err e) r'
  writes :
      {r' : Register} (v : Version)
      → r at v.version ≡ none
      → ((id text : String) → r' id text ≡ written at v.version v r id text)
      → Answers at r (ok v) r'

-- A call seen as one of the register: a creation writes nothing.
abbrev pub Serves : Env → World → Call → Type 0
Serves env w (creates req) =
    (id text : String) → view (after_call env (creates req) w) id text ≡ view w id text
Serves env w (publishes req) =
    Answers req.workflow_id (view w) (publish_version env req w).0
      (view (after_call env (publishes req) w))

-- Each of the calls is served as by the register, in the state that the calls before it leave.
abbrev pub Refines : Env → World → List Call → Type 0
Refines env w [] = Unit
Refines env w (c ∷ calls) = Serves env w c × Refines env (after_call env c w) calls
