-- ===== src/Registry/Publish/Later.antt =====
-- The versions of a workflow grow.
use Prim.Native.Nat.{Ordering}
use forge_eng_fabric.Prelude.{String, false, some, ◌≡◌, sym, ap, subst, ◌∙◌, inl, inr, string_eq}
use forge_eng_fabric.Prelude.Assoc.{lookup}
use forge_eng_fabric.Workflow.Ast
use forge_eng_fabric.Workflow.Dsl.{parsed, parse}
use forge_eng_fabric.Registry.SemVer.{
  SemVer, BumpKind, bump_major, cmp_int, parse_sem_ver, compare_versions, min_next_version, is_lt,
}
use forge_eng_fabric.Registry.SemVer.Laws.{IsValid, parse_sem_ver-to_text}
use forge_eng_fabric.Registry.SemVer.Order.{CanBump, min_next_version-lt}
use forge_eng_fabric.Registry.SemVer.Later.{later_than_previous, min_major-lt, major_later}
use forge_eng_fabric.Registry.Diff.{diff_workflows}
use forge_eng_fabric.Registry.Diff.Laws.{Removes, removal-is_major}
use forge_eng_fabric.Registry.Service.{Workflow, Version, Env, World, ok}
use forge_eng_fabric.Registry.Publish.{
  PublishVersionRequest, versions_of, previous, publish_version,
}
use forge_eng_fabric.Registry.Publish.Outcome.{publish_version-Ends}
use forge_eng_fabric.Registry.Publish.Choice.{Allowed, Ends-Chosen}

-- The text of a version parses to a version that is later than another.
abbrev pub IsLaterThan : SemVer → String → Type 0
IsLaterThan p text =
    (q : SemVer) × (parse_sem_ver text ≡ some q) × (compare_versions p q ≡ Ordering.lt)

Allowed-later :
    (p q : SemVer) (bump : BumpKind)
    → CanBump p
    → IsValid q
    → Allowed p bump q
    → compare_versions p q ≡ Ordering.lt
Allowed-later p q bump g v (inl e) =
    subst (λ u. compare_versions p u ≡ Ordering.lt) (sym e) (min_next_version-lt p bump g)
Allowed-later p q bump g v (inr e) = later_than_previous p q bump g v e

Allowed-major :
    (p q : SemVer) (bump : BumpKind)
    → bump ≡ bump_major
    → CanBump p
    → IsValid q
    → Allowed p bump q
    → cmp_int p.major q.major ≡ Ordering.lt
Allowed-major p q bump b g v (inl e) =
    min_major-lt p q g (subst (λ c. q ≡ min_next_version p c) b e)
Allowed-major p q bump b g v (inr e) =
    major_later p q g v (subst (λ c. is_lt (compare_versions q (min_next_version p c)) ≡ false) b e)

module _ (env : Env) (req : PublishVersionRequest) (w : World) (wf : Workflow) (prev : Ast.Workflow)
    (p : SemVer) (v : Version) where
  -- Where a workflow has a latest version in the store, whose text parses and whose numbers can be
  -- raised, each version of it that PublishVersion returns, with auto bump or without, has a text
  -- that parses to a later version.
  pub published_version-later :
      lookup req.workflow_id w.workflows ≡ some wf
      → previous wf (versions_of w req.workflow_id) ≡ some prev
      → parse_sem_ver wf.latest ≡ some p
      → CanBump p
      → (publish_version env req w).0 ≡ ok v
      → IsLaterThan p v.version
  published_version-later l k m g h =
      let c = Ends-Chosen env req w wf prev p v (publish_version-Ends env req w) l k m g h in
      (
        c.final,
        ap parse_sem_ver c.named ∙ parse_sem_ver-to_text c.final c.is_valid,
        Allowed-later p c.final (diff_workflows env.deep_equal prev c.ast).bump g c.is_valid
            c.allowed,
      )

  -- Where a workflow has a latest version in the store, whose text parses and whose numbers can be
  -- raised, and the workflow that the document decodes to lacks an input, an output, a step of the
  -- first level or a trigger of the previous one, a version that PublishVersion returns has a text
  -- that parses to a version with a greater major number.
  pub removal-raises_major :
      (ast : Ast.Workflow)
      → lookup req.workflow_id w.workflows ≡ some wf
      → previous wf (versions_of w req.workflow_id) ≡ some prev
      → parse_sem_ver wf.latest ≡ some p
      → CanBump p
      → parse env.decode req.workflow_yaml ≡ parsed ast
      → Removes prev ast
      → (publish_version env req w).0 ≡ ok v
      → (q : SemVer) × (parse_sem_ver v.version ≡ some q) × (cmp_int p.major q.major ≡ Ordering.lt)
  removal-raises_major ast l k m g d r h =
      let c = Ends-Chosen env req w wf prev p v (publish_version-Ends env req w) l k m g h in
      (
        c.final,
        ap parse_sem_ver c.named ∙ parse_sem_ver-to_text c.final c.is_valid,
        Allowed-major p c.final (diff_workflows env.deep_equal prev c.ast).bump
            (removal-is_major env.deep_equal prev c.ast
              (subst (λ u. Removes prev u) (parsed_injective (sym d ∙ c.decoded)) r))
            g c.is_valid c.allowed,
      )
    where
      parsed_injective : {a b : Ast.Workflow} → parsed a ≡ parsed b → a ≡ b
      parsed_injective h = cc
