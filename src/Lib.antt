-- ===== src/Lib.antt =====
-- forge-eng-fabric: the decision core of five of its services, the image verification, the
-- workflow language with its lint, and the lanes of the workflow runtime.
--
-- services/sdlc-orchestrator takes an initiative through the phases of the software life cycle.
-- Each phase has gates, which the evidence of a request passes or fails; the targets of an
-- initiative say for each phase whether it is required, optional, opt-in or skipped.
-- services/policy-engine decides a request by the most restrictive of the rules that match it,
-- evaluates the SDLC gate templates, and keeps overrides, which are granted for a time and used
-- once. services/deploy-orchestrator takes a deployment through its stages: preflight, its own
-- policies and the policy engine, the verification of the image by pkg/cosign, and then
-- rendering, applying and verifying by a connector, with a rollback where that fails.
-- services/healing-engine answers an incident at one of five levels of autonomy, from a
-- notification to a run that is undone where it cannot be verified. services/workflow-registry
-- keeps the published versions of the workflows, which are documents of pkg/workflow, and
-- chooses the number of each new one by its difference from the one before. The services call
-- each other over HTTP; here each is a library of its own, and the answer of the policy engine
-- is a parameter of the deployment.
--
-- Which file models what:
--   Prelude: the tests, lists, texts, maps and JSON values that the others share
--     (`Prelude.Value` also models stringFrom and mapFrom of service.go, `Prelude.Text` Go's
--     strings package).
--   Sdlc.Types, Sdlc.Phases, Sdlc.Targets: services/sdlc-orchestrator/internal/sdlc/types.go
--     (Phase, OrderedPhases, NextPhase, PhaseIndex, TargetPolicy, MergeTargets).
--   Sdlc.Gates, Sdlc.Evaluate: gates.go (RequiredGates, evaluateEvidence, Evaluate) and the
--     helpers of service.go on gate results and overrides.
--   Sdlc.Store, Sdlc.Events: store.go and events.go. `World` is the state that the calls share:
--     the stored initiatives, the emitted events, and how many identifiers and clock readings were
--     drawn. A call is a function of the world to a result and a world, `M`; it keeps its changes
--     where it ends in an error.
--   Sdlc.Create, Sdlc.Advance, Sdlc.Service: service.go. `create_initiative` is
--     CreateInitiative, `complete_phase` is CompletePhase, `regress` is Regress, `handle_event` is
--     HandleEvent; CompletePhase is cut at its branches into `complete_found`, `run_gates`,
--     `settle_phase`, `refuse_phase`, `block_phase` and `advance_phase`. The rules by which proofs
--     go over such programs are in Sdlc.Store.Frames.
--   Policy.Engine, Policy.SdlcGate: services/policy-engine/internal/policy/policy.go and
--     sdlc.go.
--   Policy.Override: services/policy-engine/internal/override/override.go. `Manager` holds the
--     overrides, the events and the number of identifiers drawn.
--   Deploy.Freeze, Deploy.Policies, Deploy.Decide:
--     services/deploy-orchestrator/internal/deploy/policy.go, with the decision of runPolicies and
--     policyOutcome of service.go.
--   Deploy.Types, Deploy.Store, Deploy.Listing: types.go. `Store` keeps each deployment once,
--     under its identifier; the lists of revisions keep identifiers, where Go shares the pointer.
--   Deploy.World: the fields of `Service`, the calls that it makes of others, and events.go.
--     Programs over the world are those of Prelude.State, with the rules for what they leave as it
--     was.
--   Deploy.Runtimes: runtime_provider.go. Deploy.Stages, Deploy.ImageStage, Deploy.Rollback,
--     Deploy.Rollout, Deploy.Pipeline: service.go (runtimePreflight, runPolicies, policyOutcome
--     and fail; runImageVerify; Insert, Rollback and rollbackInternal; Deploy from the rendering
--     on; Deploy).
--   Cosign: pkg/cosign/cosign.go.
--   Workflow.Concurrency: services/workflow-runtime/internal/runtime/concurrency.go, with the
--     triggers of pkg/workflow/ast/ast.go. Each call of the tracker holds its lock, so an
--     interleaving of executions is a list of calls; a wait is an attempt that changes nothing and
--     is made again. `Running` also has the lanes that executions hold: only an execution that
--     acquired a lane releases it, and once, as the comments of the tracker ask.
--   Workflow.Ast, Workflow.Ast.Ref: pkg/workflow/ast/ast.go and ref.go. A `Step` is the struct
--     without its branches and its body; a `Node` adds them. A nil slice or map that
--     reflect.DeepEqual tells from an empty one is `none`.
--   Workflow.Dsl: pkg/workflow/dsl/parse.go and pkg/workflow/schema/schema.go (`parse` is Parse
--     behind the decoder of YAML, `validate` is Validate).
--   Workflow.Lint: pkg/workflow/lint/lint.go. `lint` is Lint; Workflow.Lint.Finding has the
--     findings and allSteps, Steps the checks of identifiers and of one step at a time, Cycles
--     checkCycles, Reach checkUnreachable, and Wiring with its children checkTriggers,
--     checkLLMSteps and checkTypeWiring.
--   Registry.SemVer, Registry.Diff, Registry.Migrate:
--     services/workflow-registry/internal/registry/semver.go, diff.go (the marks and indexes in
--     Registry.Diff.Marks) and migrate_catalog.go.
--   Registry.Service, Registry.Publish: service.go and events.go. `World` is the store with the
--     events and the numbers of identifiers and clock readings drawn; `publish_version` is
--     PublishVersion, cut at its branches. Registry.Runs has the runs of calls, and the register
--     that is written once, as which a client may see the service.
--   Healing.Types, Healing.Level: services/healing-engine/internal/engine/types.go and l1l2.go
--     (the data), and the level that service.go decides. `decide_level` is the part of Trigger
--     from `requested` to the rate limit.
--   Healing.World: the store of types.go and the events of events.go. `World` also keeps the
--     calls made of the workflow executor and the approvals client; how they answer is in `Env`.
--   Healing.Safety, Healing.Suggest: l1l2.go (SafetyEval; Detect and ProposeFix).
--   Healing.Runs, Healing.Trigger, Healing.Promote: service.go (runL3, runL4, runL5; Trigger;
--     PromoteAction).
-- The child modules of these hold the theorems (Laws, Errors, Skips, Progress, Turn, Success,
-- Regression, Lifecycle, Expiry, Production, KillSwitch, RateLimit, History, Frames, Guards,
-- FailClosed, Idempotence, Outcome, Later, Order, Read, Keeps, Lost, Once, Idempotent, Fuel,
-- Loops, Colours, Parts, Places, Choice, Stored, Counts), and the Examples modules apply them to
-- small inputs.
--
-- Fuel: the loop of CompletePhase that passes over the phases which the plan leaves out runs on
-- fuel, `skip_fuel`, one round for each of the eleven phases. That is enough: each round goes
-- one phase on, and the loop stops at `done` (Sdlc.Service.Skips). All other loops are
-- recursions on lists, but for three. The depth-first search of checkCycles runs on one round
-- more than the identifiers that the graph names, since a visit starts only at an identifier
-- that is white (Workflow.Lint.Cycles.Fuel); the walk of checkUnreachable on twice the number of
-- the steps, since a step enters the queue at the start and once more at most
-- (Workflow.Lint.Reach.Fuel); the printing of a number on the number itself, since its tenth is
-- smaller (Prelude.Split.Laws).
--
-- Parameters: the identifiers of uuid.NewString and the readings of the clock (`Env`, or the
-- argument `uuid` and the time of a call), and the evaluation of CEL conditions by cel-go
-- (`Evaluator`, `GateEvaluator`), and in the healing engine the answers of the workflow executor
-- and of the approvals client, by the number of calls made before (`on_execute` and the others
-- of its `Env`); where the approvals client fails, no identifier comes with the error. The
-- deployment has as parameters, in its `Service`, the connectors, the runtime provider, the
-- approvals, the image registry and the policy engine; the store's writes of a deployment
-- suppose that drawn identifiers are new. Phases, policies and decisions are open string types
-- in Go; a constructor stands for every other string. Times are natural numbers: seconds, but
-- nanoseconds in Policy.Override, where the time to live of a grant wraps around as the int64 of
-- a time.Duration does. The weekdays and hours of a freeze window are natural numbers too; a
-- negative one, which an int admits, is not modelled. Where Store.SetStatus reads time.Now, the
-- model reads the clock of the service. The confidence of a hypothesis and the pass rate of a
-- promotion are in ten-thousandths; the reason of a healing decision is a constructor in place
-- of its text. In the registry the parameters are the decoder of YAML and reflect.DeepEqual of
-- two config maps.
--
-- Not modelled: the HTTP layers, the configuration, and the loading of files; the mutexes, since
-- each method of a store or manager holds its lock from start to end; letter case and white
-- space outside ASCII; the subscriptions to a deployment's events; the connectors; the
-- reconciler's ticker; the other services, packages and the portal. Of the workflow registry:
-- ListVersions and the order of ListWorkflows, and the seeding from files; of the lint, the
-- order in which a Go map ranges, which is that of the list that stands for it, and `%q` of
-- characters that cannot be printed.
pub mod Prelude
pub mod Sdlc
pub mod Policy
pub mod Deploy
pub mod Healing
pub mod Cosign
pub mod Workflow
pub mod Registry
