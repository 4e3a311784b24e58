-- ===== src/Healing/Suggest.antt =====
-- l1l2.go: a detection (L1), and a fix that is proposed (L2).
use forge_eng_fabric.Prelude.{String, List, [], ◌∷◌, map, ◌==◌, string_eq, if◌then◌else◌}
use forge_eng_fabric.Prelude.Int.{ℤ, pos, int_leb}
use forge_eng_fabric.Prelude.Text.{◌+s◌}
use forge_eng_fabric.Healing.Types.{
  DetectionInput, ProposeFixInput, FileDiff, ProposedFix, SafetyEvalResult, passed, L1Detection,
  L2Suggestion, incident_created, pending, rejected,
}
use forge_eng_fabric.Healing.Safety.{safety_eval}
use forge_eng_fabric.Healing.World.{
  detected, fix_downgraded, fix_proposed, create_approval, Reply, ok, err, Env, M, pure, ◌>>=◌,
  ◌>>◌, new_id, clock, write_store, ask, emit, save_detection, save_suggestion,
}

-- Detect; the result of the approvals client is ignored.
unfoldable pub detect : Env → DetectionInput → M (Reply L1Detection)
detect env input = if input.app_id == "" then pure (err "app_id required") else do
  generated ← clock env
  id ← new_id env
  created ← clock env
  let detection : L1Detection = record {
    id = "det-" +s id;
    app_id = input.app_id;
    tenant_id = input.tenant_id;
    correlation_id = input.correlation_id;
    signal = input.signal_source;
    diagnosis = record {
      app_id = input.app_id;
      signal_source = input.signal_source;
      hypotheses = input.candidate_hypotheses;
      candidate_actions = input.candidate_actions;
      blast_radius_estimate = input.blast_radius_estimate;
      generated_at = generated;
    };
    created_at = created;
  }
  emit env input.tenant_id input.workspace_id ("app/" +s input.app_id) (detected detection)
  write_store (save_detection detection)
  card ← ask (create_approval "healing-l1" detection.id) env.on_create
  pure (ok detection)

abbrev placeholder : FileDiff
placeholder = record {
  path = "config/remediation.yaml";
  before = "";
  after = "# auto-remediation placeholder";
  lines_changed = pos 1;
}

abbrev patched : String → String → FileDiff
patched description path = record {
  path = path;
  before = "# original content";
  after = "# patched by healing-engine: " +s description;
  lines_changed = pos 2;
}

abbrev or_placeholder : List FileDiff → List FileDiff
or_placeholder [] = placeholder ∷ []
or_placeholder (d ∷ ds) = d ∷ ds

-- synthesiseFix
unfoldable pub synthesise_fix : String → ProposeFixInput → String → ProposedFix
synthesise_fix id input diff_type = record {
  id = "fix-" +s id;
  app_id = input.app_id;
  diff_type = diff_type;
  file_diffs =
      or_placeholder
        (map (patched input.top_hypothesis.description) input.top_hypothesis.affected_files);
  citations = input.top_hypothesis.evidence;
  blast_radius_estimate = "low";
}

unfoldable pub size_budget : ProposeFixInput → ℤ
size_budget input =
    if int_leb input.size_budget_lines (pos 0) then pos 200 else input.size_budget_lines

abbrev suggestion_of :
    ProposeFixInput → ProposedFix → SafetyEvalResult → L1Detection → String → L2Suggestion
suggestion_of input fix safety detection id = record {
  id = "sug-" +s id;
  app_id = input.app_id;
  tenant_id = input.tenant_id;
  correlation_id = input.correlation_id;
  detection = detection;
  fix = fix;
  safety = safety;
  approval_id = "";
  status = pending;
  created_at = detection.created_at;
}

abbrev id_or_empty : Reply String → String
id_or_empty (ok id) = id
id_or_empty (err e) = ""

-- The two ends of ProposeFix: the fix is downgraded, or proposed with an approval card.
unfoldable pub finish_suggestion :
    Env → ProposeFixInput → L2Suggestion → SafetyEvalResult → M L2Suggestion
finish_suggestion env input sg passed = do
  emit env input.tenant_id input.workspace_id ("app/" +s input.app_id) (fix_proposed sg)
  card ← ask (create_approval "healing-l2" sg.id) env.on_create
  let carded = record sg { approval_id = id_or_empty card }
  write_store (save_suggestion carded)
  pure carded
finish_suggestion env input sg unsafe = do
  emit env input.tenant_id input.workspace_id ("app/" +s input.app_id) (fix_downgraded sg)
  let refused = record sg { status = rejected }
  write_store (save_suggestion refused)
  pure refused

-- ProposeFix
unfoldable pub propose_fix : Env → ProposeFixInput → M (Reply L2Suggestion)
propose_fix env input = if input.app_id == "" then pure (err "app_id required") else do
  fix_id ← new_id env
  let fix = synthesise_fix fix_id input (if input.diff_type == "" then "code" else input.diff_type)
  let safety = safety_eval fix input.protected_paths (size_budget input)
  detection_id ← new_id env
  generated ← clock env
  detected_at ← clock env
  suggestion_id ← new_id env
  created ← clock env
  let detection : L1Detection = record {
    id = "det-" +s detection_id;
    app_id = input.app_id;
    tenant_id = input.tenant_id;
    correlation_id = input.correlation_id;
    signal = incident_created;
    diagnosis = record {
      app_id = input.app_id;
      signal_source = incident_created;
      hypotheses = input.top_hypothesis ∷ [];
      candidate_actions = [];
      blast_radius_estimate = "";
      generated_at = generated;
    };
    created_at = detected_at;
  }
  let draft = record (suggestion_of input fix safety detection suggestion_id) {
    created_at = created;
  }
  sg ← finish_suggestion env input draft safety
  pure (ok sg)
