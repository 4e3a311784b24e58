-- ===== src/Deploy/Listing.antt =====
-- types.go: the lists of deployments that the store serves. Of two deployments of the same time, the
-- one stored first stands first.
use forge_eng_fabric.Prelude.{
  ℕ, zero, suc, String, ◌&&◌, ◌||◌, List, [], ◌∷◌, Option, none, some, keep, length, ltb, leb, ◌==◌,
  string_eq, if◌then◌else◌,
}
use forge_eng_fabric.Prelude.Int.{ℤ, pos, int_leb, int_ltb, pos_part}
use forge_eng_fabric.Prelude.Assoc.{lookup}
use forge_eng_fabric.Deploy.Types.{Deployment}
use forge_eng_fabric.Deploy.Store.{Store, listed, revision_key}

insert_latest : Deployment → List Deployment → List Deployment
insert_latest d [] = d ∷ []
insert_latest d (x ∷ xs) =
    let rest = insert_latest d xs in if leb x.created_at d.created_at then d ∷ x ∷ xs else x ∷ rest

-- `sort.Slice` by creation, the latest first.
unfoldable pub latest_first : List Deployment → List Deployment
unfolding insert_latest
latest_first [] = []
latest_first (d ∷ ds) = insert_latest d (latest_first ds)

values : {A : Type 0} → List (String × A) → List A
values [] = []
values ((k, a) ∷ rest) = a ∷ values rest

-- List
unfoldable pub list_deployments : String → String → Store → List Deployment
unfolding values
list_deployments workspace_id env s = latest_first (
    keep
      (λ (d : Deployment).
        (workspace_id == "" || d.workspace_id == workspace_id) && (env == "" || d.env == env))
      (values s.deployments))

-- The deployments of the identifiers.
unfoldable pub resolve : List (String × Deployment) → List String → List Deployment
resolve ds [] = []
resolve ds (id ∷ ids) =
    let rest = resolve ds ids in elim (lookup id ds) [ none ↦ rest | some d ↦ d ∷ rest ]

-- What follows the deployment of the cursor, or none where no deployment has it.
unfoldable pub after_cursor : String → List Deployment → Option (List Deployment)
after_cursor cursor [] = none
after_cursor cursor (d ∷ ds) =
    let rest = after_cursor cursor ds in if d.id == cursor then some ds else rest

unfoldable pub from_cursor : String → List Deployment → List Deployment
unfolding after_cursor
from_cursor cursor all =
    if cursor == "" then all else elim (after_cursor cursor all) [ none ↦ all | some rest ↦ rest ]

unfoldable pub page_size : ℤ → ℕ
page_size limit = if int_leb limit (pos 0) || int_ltb (pos 100) limit then 20 else pos_part limit

unfoldable pub take : {A : Type 0} → ℕ → List A → List A
take n [] = []
take zero (x ∷ xs) = []
take (suc n) (x ∷ xs) = x ∷ take n xs

abbrev last_id : String → List Deployment → String
last_id id [] = id
last_id id (d ∷ ds) = last_id d.id ds

-- The page, and the cursor of the next one, which is empty at the end.
unfoldable pub page_of : ℕ → List Deployment → List Deployment × String
unfolding take
page_of n rest =
    let page = take n rest in (page, if ltb n (length rest) then last_id "" page else "")

-- AssetDeployments
unfoldable pub asset_deployments : String → String → ℤ → String → Store → List Deployment × String
unfolding page_of page_size from_cursor latest_first resolve
asset_deployments asset_id env limit cursor s = page_of (page_size limit) (
    from_cursor cursor
      (latest_first (resolve s.deployments (listed (revision_key asset_id env) s.revisions))))
