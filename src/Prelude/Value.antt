-- ===== src/Prelude/Value.antt =====
-- Go's `any`, as far as the services look into it: what `encoding/json` decodes. The fields of a
-- map stand in the order of their keys, which is the order in which `fmt` prints them.
use Prim.Native.Nat.{Ordering}
use Prim.Native.String.{String, compare}
use mathlib.Core.Bool.{Bool, true, false}
use mathlib.Core.List.{List}
use forge_eng_fabric.Prelude.Tests.{◌==◌, string_eq, if◌then◌else◌}
use forge_eng_fabric.Prelude.Text.{join, ◌+s◌}

mutual
  pub data Value : Type 0 where
    null : Value
    bool : Bool → Value
    str : String → Value
    strs : List String → Value
    obj : Fields → Value
    -- a number or a list, which the code sees only through what `fmt.Sprint` prints
    printed : String → Value

  pub data Fields : Type 0 where
    end : Fields
    field : String → Value → Fields → Fields

-- `m[key]`, which is nil where the key is absent
unfoldable pub at_key : Fields → String → Value
at_key end key = null
at_key (field k v fs) key = if k == key then v else at_key fs key

-- `m[key] = v`
unfoldable pub put_key : String → Value → Fields → Fields
put_key key v end = field key v end
put_key key v (field k w fs) =
    let rest = put_key key v fs in
    elim (compare key k) as (λ _. Fields) [
      | Ordering.lt ↦ field key v (field k w fs)
      | Ordering.eq ↦ field key v fs
      | Ordering.gt ↦ field k w rest
    ]

-- `value.(string)`, or the empty string (stringFrom, strOr)
unfoldable pub string_from : Value → String
string_from (str s) = s
string_from _ = ""

-- `value.(map[string]any)`, or an empty map (mapFrom, mapOr)
unfoldable pub map_from : Value → Fields
map_from (obj fs) = fs
map_from _ = end

-- fmt.Sprint
unfoldable mutual
  pub sprint : Value → String
  sprint null = "<nil>"
  sprint (bool true) = "true"
  sprint (bool false) = "false"
  sprint (str s) = s
  sprint (strs l) = "[" +s join " " l +s "]"
  sprint (obj fs) = "map[" +s sprint_fields fs +s "]"
  sprint (printed s) = s

  pub sprint_fields : Fields → String
  sprint_fields end = ""
  sprint_fields (field k v end) = k +s ":" +s sprint v
  sprint_fields (field k v (field k' v' fs)) =
      k +s ":" +s sprint v +s " " +s sprint_fields (field k' v' fs)
