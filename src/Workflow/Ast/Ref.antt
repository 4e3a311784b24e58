-- ===== src/Workflow/Ast/Ref.antt =====
-- pkg/workflow/ast/ref.go: the references to assets of the registry.
use forge_eng_fabric.Prelude.{
  String, Bool, true, false, not, ◌&&◌, ◌||◌, none, some, any, List, [], ◌∷◌, leb, ◌==◌, nat_eq,
  string_eq, if◌then◌else◌,
}
use forge_eng_fabric.Prelude.Text.{◌+s◌, to_lower}
use forge_eng_fabric.Prelude.Split.{cut, cut_last, split, strip, is_digit}
use Prim.Native.Char.{Char, code}

pub record AssetRef : Type 0 where
  pub asset_type : String
  pub id : String
  pub version : String

pub data RefError : Type 0 where
  not_a_registry_reference floating_reference_not_allowed malformed_reference : RefError

-- What ParseAssetRef returns: the reference, or its error.
pub data Parsed : Type 0 where
  pinned : AssetRef → Parsed
  refused : RefError → Parsed

unfoldable pub floating_tag_words : List String
floating_tag_words = "latest" ∷ "main" ∷ "master" ∷ "current" ∷ "stable" ∷ []

unfoldable pub mcp_permission_scopes : List String
mcp_permission_scopes = "read" ∷ "write" ∷ "admin" ∷ []

abbrev pub all_chars : (Char → Bool) → String → Bool
all_chars p String.[] = true
all_chars p (String.◌∷◌ c s) = p c && all_chars p s

-- `[0-9A-Za-z.-]`
abbrev pub is_tag_char : Char → Bool
is_tag_char c =
    is_digit c
    || leb 65 (code c) && leb (code c) 90
    || leb 97 (code c) && leb (code c) 122
    || code c == 46
    || code c == 45

abbrev pub is_number : String → Bool
is_number s = not (s == "") && all_chars is_digit s

abbrev pub is_tag : String → Bool
is_tag s = not (s == "") && all_chars is_tag_char s

-- `\d+\.\d+\.\d+`
unfoldable pub matches_core : List String → Bool
matches_core (x ∷ y ∷ z ∷ []) = is_number x && is_number y && is_number z
matches_core _ = false

-- `\d+\.\d+\.\d+(?:-[0-9A-Za-z.-]+)?`: the first hyphen ends the numbers, since none holds one.
unfoldable pub matches_release : String → Bool
unfolding matches_core
matches_release s = elim (cut 45 s) [
  | none ↦ matches_core (split 46 s)
  | some (numbers, tag) ↦ matches_core (split 46 numbers) && is_tag tag
]

-- `semverRefPattern.MatchString`: the first plus sign ends the release, since none holds one.
unfoldable pub matches_semver : String → Bool
unfolding matches_release
matches_semver s = elim (cut 43 s) [
  | none ↦ matches_release s
  | some (release, build) ↦ matches_release release && is_tag build
]

-- ParseAssetRef, from the version on.
unfoldable pub pin : AssetRef → Parsed
unfolding floating_tag_words mcp_permission_scopes matches_semver
pin ref =
    if any (λ w. w == to_lower ref.version) floating_tag_words
    then refused floating_reference_not_allowed
    else if ref.asset_type == "mcp" && any (λ w. w == to_lower ref.version) mcp_permission_scopes
    then pinned ref
    else if matches_semver ref.version
    then pinned ref
    else refused floating_reference_not_allowed

-- ParseAssetRef, from the part before the at sign and the part after it.
unfoldable pub parse_parts : String → String → Parsed
unfolding pin
parse_parts left right =
    if left == "" || right == "" then refused malformed_reference else elim (cut 47 left) [
      | none ↦ refused malformed_reference
      | some (asset_type, id) ↦
          if asset_type == "" || id == ""
          then refused malformed_reference
          else pin (record { asset_type = asset_type; id = id; version = right })
    ]

-- ParseAssetRef
unfoldable pub parse_asset_ref : String → Parsed
unfolding parse_parts
parse_asset_ref ref = elim (strip ref "registry:") [
  | none ↦ refused not_a_registry_reference
  | some body ↦ elim (cut_last 64 body) [
    | none ↦ refused malformed_reference
    | some (left, right) ↦ parse_parts left right
  ]
]

-- AssetRef.String
unfoldable pub ref_string : AssetRef → String
ref_string r = "registry:" +s r.asset_type +s "/" +s r.id +s "@" +s r.version

-- errors.Is(err, ErrFloatingReference)
unfoldable pub is_floating : Parsed → Bool
is_floating (refused floating_reference_not_allowed) = true
is_floating _ = false
