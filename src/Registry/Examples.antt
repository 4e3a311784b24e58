-- ===== src/Registry/Examples.antt =====
-- The theorems on the registry at one workflow and its next version.
mod Documents
use forge_eng_fabric.Prelude.{
  ℕ, String, Bool, true, false, List, [], ◌∷◌, Option, none, some, ◌≡◌, refl, string_eq, arith,
}
use forge_eng_fabric.Prelude.Assoc.{lookup, insert}
use forge_eng_fabric.Prelude.Int.{pos}
use forge_eng_fabric.Prelude.Split.{split, cut, atoi, decimal_int}
use forge_eng_fabric.Workflow.Lint.Cycles.{colour_of, deps}
use forge_eng_fabric.Prelude.Value.{null, str, end, field}
use forge_eng_fabric.Workflow.Ast
use forge_eng_fabric.Workflow.Ast.{
  Step, Node, node, nil, no_branch, IoField, Metadata, Trigger, EventPattern, NodeActiveSurface,
}
use forge_eng_fabric.Workflow.Dsl.{Parsed, parsed, parse, event_trigger_to_trigger}
use forge_eng_fabric.Workflow.Lint.Laws.{Runs}
use Prim.Native.Nat.{Ordering}
use forge_eng_fabric.Registry.SemVer.{
  SemVer, bump_major, bump_minor, parse_sem_ver, to_text, compare_versions, min_next_version,
  cmp_int,
}
use forge_eng_fabric.Registry.SemVer.Laws.{IsValid, parse_sem_ver-to_text}
use forge_eng_fabric.Registry.SemVer.Order.{CanBump, min_next_version-lt}
use forge_eng_fabric.Registry.Migrate.{apply_catalog_migrations, event_step_to_trigger}
use forge_eng_fabric.Registry.Migrate.Laws.{event_step_to_trigger-same}
use forge_eng_fabric.Registry.Migrate.Idempotent.{migrations_once}
use forge_eng_fabric.Registry.Diff.Marks.{DiffResult, mark_if}
use forge_eng_fabric.Registry.Diff.Laws.{Removes, input}
use forge_eng_fabric.Registry.Service.{
  Workflow, Version, published, Env, World, CreateWorkflowRequest, Result, ok,
}
use forge_eng_fabric.Registry.Publish.{
  PublishVersionRequest, versions_of, previous, publish_version, renamed,
}
use forge_eng_fabric.Registry.Publish.Laws.{published_version_stays, published_version-Runs}
use forge_eng_fabric.Registry.Publish.Later.{
  IsLaterThan, published_version-later, removal-raises_major,
}
use forge_eng_fabric.Registry.Runs.{Call, creates, publishes, empty, Refines}
use forge_eng_fabric.Registry.Runs.Laws.{calls_write_once}
use forge_eng_fabric.Registry.Examples.Documents.{
  plain_step, alone, field_named, workflow_with, two_steps, first_ast, next_ast,
}

abbrev env : Env
env = record {
  decode = λ raw. some next_ast;
  deep_equal = λ a b. true;
  uuid = λ n. "id";
  now = λ n. n;
}

abbrev first_version : Version
first_version = record {
  workflow_id = "wf";
  version = "1.0.0";
  ast = first_ast;
  state = published;
  published_at = some 1;
  created_at = 1;
  created_by = "ann";
  diff_prev = none;
}

abbrev registered : Workflow
registered = record {
  id = "wf";
  tenant_id = "t";
  workspace_id = "ws";
  name = "Build";
  owners = [];
  description = "";
  tags = [];
  visibility = "private";
  latest = "1.0.0";
  created_at = 0;
  updated_at = 1;
}

abbrev world : World
world = record {
  workflows = ("wf", registered) ∷ [];
  versions = ("wf", ("1.0.0", first_version) ∷ []) ∷ [];
  events = [];
  ids = 0;
  readings = 2;
}

abbrev request : PublishVersionRequest
request = record { workflow_id = "wf"; workflow_yaml = "doc"; actor = "bob"; auto_bump = true }

abbrev next_version : Version
next_version = record {
  workflow_id = "wf";
  version = "2.0.0";
  ast = workflow_with "2.0.0" [] two_steps;
  state = published;
  published_at = some 2;
  created_at = 2;
  created_by = "bob";
  diff_prev = some (record {
    bump = bump_major;
    reasons = "input_removed:repo" ∷ [];
    major = true;
    minor = false;
  });
}

publishes_next : (publish_version env request world).0 ≡ ok next_version
unfolding publish_version insert lookup colour_of deps split cut atoi to_text decimal_int mark_if
    renamed
publishes_next = refl

published_version_stays_example :
    lookup "1.0.0" (versions_of (publish_version env request world).1 "wf") ≡ some first_version
unfolding versions_of lookup
published_version_stays_example =
    published_version_stays env request world "wf" "1.0.0" first_version refl refl

abbrev one_zero : SemVer
one_zero = record { major = pos 1; minor = pos 0; patch = pos 0; pre = ""; build = "" }

one_zero-CanBump : CanBump one_zero
one_zero-CanBump = record {
  major_grows = omega arith;
  minor_grows = omega arith;
  patch_grows = omega arith;
}

one_zero-parsed : parse_sem_ver "1.0.0" ≡ some one_zero
unfolding parse_sem_ver split cut atoi
one_zero-parsed = refl

is_registered : lookup "wf" world.workflows ≡ some registered
unfolding lookup
is_registered = refl

has_previous : previous registered (versions_of world "wf") ≡ some first_ast
unfolding previous versions_of lookup
has_previous = refl

published_version-later_example : IsLaterThan one_zero "2.0.0"
published_version-later_example =
    published_version-later env request world registered first_ast one_zero next_version
      is_registered has_previous one_zero-parsed one_zero-CanBump publishes_next

decodes : parse env.decode "doc" ≡ parsed next_ast
unfolding parse
decodes = refl

removes_input : Removes first_ast next_ast
removes_input = input "repo" (record { had = refl; lost = refl })

removal-raises_major_example :
    (q : SemVer) × (parse_sem_ver "2.0.0" ≡ some q) × (cmp_int one_zero.major q.major ≡ Ordering.lt)
removal-raises_major_example =
    removal-raises_major env request world registered first_ast one_zero next_version next_ast
      is_registered has_previous one_zero-parsed one_zero-CanBump decodes removes_input
      publishes_next

published_version-Runs_example :
    Runs next_version.ast
    × (lookup "2.0.0" (versions_of (publish_version env request world).1 "wf") ≡ some next_version)
published_version-Runs_example =
    published_version-Runs env request world next_version publishes_next

abbrev creation : CreateWorkflowRequest
creation = record {
  id = "wf";
  tenant_id = "t";
  workspace_id = "ws";
  name = "Build";
  owners = [];
  description = "";
  tags = [];
  visibility = "";
}

abbrev calls : List Call
calls = creates creation ∷ publishes request ∷ publishes request ∷ []

calls_write_once_example : Refines env empty calls
calls_write_once_example = calls_write_once env calls

abbrev candidate : SemVer
candidate = record { major = pos 1; minor = pos 20; patch = pos 3; pre = "rc-1.2"; build = "a+b" }

candidate-IsValid : IsValid candidate
candidate-IsValid = record {
  major_fits = omega arith;
  minor_fits = omega arith;
  patch_fits = omega arith;
  pre_plain = (refl, (refl, (refl, (refl, (refl, (refl, tt))))));
}

parse_sem_ver-to_text_example : parse_sem_ver (to_text candidate) ≡ some candidate
parse_sem_ver-to_text_example = parse_sem_ver-to_text candidate candidate-IsValid

min_next_version-lt_example :
    compare_versions one_zero (min_next_version one_zero bump_minor) ≡ Ordering.lt
min_next_version-lt_example = min_next_version-lt one_zero bump_minor one_zero-CanBump

abbrev event_step : Step
event_step = record (plain_step "on_push" "event-trigger" []) {
  event_pattern = some (record {
    event_type = "push";
    source = "https://example.com";
    filter = field "branch" (str "main") end;
  });
}

event_step_to_trigger-same_example :
    event_step_to_trigger event_step ≡ event_trigger_to_trigger event_step
event_step_to_trigger-same_example = event_step_to_trigger-same event_step

abbrev legacy : Ast.Workflow
legacy =
    workflow_with "1.0.0" [] (alone event_step ∷ alone (plain_step "ask" "prompt" []) ∷ two_steps)

migrations_once_example :
    apply_catalog_migrations (apply_catalog_migrations legacy).1
    ≡ ([], (apply_catalog_migrations legacy).1)
migrations_once_example = migrations_once legacy

-- The migrations of a workflow with an event trigger and a prompt have both reasons.
legacy_reasons :
    (apply_catalog_migrations legacy).0
    ≡ "migrate_prompt_to_prompt_template" ∷ "migrate_event_trigger_to_triggers_block" ∷ []
unfolding apply_catalog_migrations
legacy_reasons = refl
