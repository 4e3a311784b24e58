-- ===== src/Deploy/Runtimes.antt =====
-- runtime_provider.go: runtimes from a map.
use forge_eng_fabric.Prelude.{String, List, Option, none, some, ◌==◌, string_eq, if◌then◌else◌}
use forge_eng_fabric.Prelude.Assoc.{lookup}
use forge_eng_fabric.Deploy.Types.{Runtime}
use forge_eng_fabric.Deploy.World.{Reply, ok, err, RuntimeProvider}

-- Get
unfoldable pub get_runtime : List (String × Runtime) → String → Reply (Option Runtime)
get_runtime rs id = elim (lookup id rs) [ none ↦ err "runtime_not_found" | some r ↦ ok (some r) ]

-- CheckUsableBy, to an error or none.
unfoldable pub check_usable_by : List (String × Runtime) → String → String → Option String
check_usable_by rs id workspace_id = elim (lookup id rs) [
  | none ↦ some "runtime_not_found"
  | some r ↦
      if r.revoked
      then some "runtime_revoked"
      else if r.workspace_id == workspace_id
      then none
      else if r.visibility == "tenant"
      then none
      else some "cross_workspace_denied"
]

-- RuntimeStoreProvider
unfoldable pub runtime_store_provider : List (String × Runtime) → RuntimeProvider
runtime_store_provider rs = record {
  get = λ n id. get_runtime rs id;
  check_usable_by = λ n id workspace_id. check_usable_by rs id workspace_id;
}
