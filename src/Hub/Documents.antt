-- ===== src/Hub/Documents.antt =====
-- The files of ops/hubctl.py: YAML documents that are read and written whole, and what a command may
-- raise. A `HubError` is its text without the names and values in it; any other exception is a crash
-- with the name of its class.
pub mod Overlays
use agent_ui.Prelude.{
  ℕ, ◌*◌, ◌^◌, String, Bool, true, false, List, Option, none, some, Result, ok, raise, and_then,
  case_option, contains, nat_beq, if◌then◌else◌, string_eq,
}
use agent_ui.Prelude.Dict.{Dict, get, put}
use agent_ui.Prelude.Json.{
  Value, Fields, pos, finite, null, boolean, int, float, str, arr, obj, end, get_field,
}
use agent_ui.Hub.Merge.{merge_mapping}

pub data Failure : Type 0 where
  hub_error : String → Failure
  crash : String → Failure

-- Reading and writing YAML, over the contents of files.
pub record Yaml (Content : Type 0) : Type 0 where
  -- `yaml.safe_load`; `none` is a `YAMLError`
  pub safe_load : Content → Option Value
  -- `yaml.safe_load` of a text that a command is given
  pub load_text : String → Option Value
  -- `yaml.safe_dump`
  pub safe_dump : Fields → Content

-- The files by their paths.
abbrev pub Files : Type 0 → Type 0
Files Content = Dict String Content

abbrev pub mapping_or_raise : Option Value → Result Failure Fields
mapping_or_raise none = raise (hub_error "Invalid YAML")
mapping_or_raise (some null) = ok end
mapping_or_raise (some (obj d)) = ok d
mapping_or_raise (some _) = raise (hub_error "Expected a YAML mapping")

module _ {Content : Type 0} (y : Yaml Content) where
  unfoldable pub read_yaml : String → Bool → Files Content → Result Failure Fields
  unfolding get
  read_yaml path missing_ok files =
      case_option (get path files)
        (if missing_ok then ok end else raise (hub_error "Required YAML file does not exist"))
        (λ content. mapping_or_raise (y.safe_load content))

-- `path.exists()`
abbrev pub exists : {Content : Type 0} → String → Files Content → Bool
exists path files = case_option (get path files) false (λ _. true)

module _ {Content : Type 0} (y : Yaml Content) where
  -- The document merged with an overlay that exists.
  unfoldable pub with_overlay : Fields → Option String → Files Content → Result Failure Fields
  unfolding read_yaml merge_mapping
  with_overlay base none files = ok base
  with_overlay base (some path) files = elim (exists path files) [
    | true ↦ and_then (read_yaml y path true files) λ overlay. ok (merge_mapping base overlay)
    | false ↦ ok base
  ]

unfoldable pub atomic_write : {Content : Type 0} → String → Content → Files Content → Files Content
unfolding put
atomic_write path content files = put path content files

-- `d.get(k, default)`
abbrev pub get_or : String → Value → Fields → Value
get_or k v d = case_option (get_field k d) v (λ w. w)

-- `v == n` for a whole number
abbrev pub equals_number : ℕ → Value → Bool
equals_number n (boolean true) = nat_beq n 1
equals_number n (boolean false) = nat_beq n 0
equals_number n (int (pos m)) = nat_beq n m
equals_number n (float (finite (pos m))) = nat_beq (n * 2 ^ 1074) m
equals_number n _ = false

-- `v in names`, for a set of texts
unfoldable pub is_one_of : List String → Value → Result Failure Bool
unfolding contains
is_one_of names (str s) = ok (contains s names)
is_one_of names (arr _) = raise (crash "TypeError")
is_one_of names (obj _) = raise (crash "TypeError")
is_one_of names _ = ok false

-- `v in {None, n}`
abbrev pub is_version : ℕ → Value → Result Failure Bool
is_version n null = ok true
is_version n (arr _) = raise (crash "TypeError")
is_version n (obj _) = raise (crash "TypeError")
is_version n v = ok (equals_number n v)

-- What a check gives.
abbrev pub Checked : Type 0
Checked = Result {0, 0} Failure Unit

-- `if not b: raise HubError(message)`
abbrev pub require : Bool → String → Checked
require true message = ok tt
require false message = raise (hub_error message)
