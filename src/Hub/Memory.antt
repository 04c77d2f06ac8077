-- ===== src/Hub/Memory.antt =====
-- The memory configuration in ops/hubctl.py: its check, its loading, and the commands that change
-- its overlay.
pub mod Loading
pub mod Toggle
pub mod Apply
use agent_ui.Prelude.{
  String, Bool, true, false, ◌&&◌, ◌||◌, not, [], ◌∷◌, Option, none, some, Result, ok, raise,
  and_then, case_option, if◌then◌else◌,
}
use agent_ui.Prelude.Text.{is_empty}
use agent_ui.Prelude.Json.{
  Value, Fields, null, boolean, str, obj, end, field, get_field, put_field, truthy,
}
use agent_ui.Hub.Merge.{merge_mapping}
use agent_ui.Hub.Documents.{
  Failure, hub_error, crash, Yaml, Files, read_yaml, with_overlay, atomic_write, get_or,
  equals_number, is_one_of, is_version, require, Checked,
}

unfoldable pub check_provider : Fields → Checked
unfolding is_one_of
check_provider provider =
    let kind = get_or "kind" (str "builtin-postgres") provider in
    and_then (is_one_of ("builtin-postgres" ∷ "continuity-http" ∷ "disabled" ∷ []) kind) λ known.
      and_then (require known "Unsupported memory provider kind") λ _.
        and_then (is_one_of ("continuity-http" ∷ []) kind) λ continuity.
          require (not continuity || truthy (get_or "base_url" null provider))
            "continuity-http memory providers require base_url"

abbrev is_boolean : Value → Bool
is_boolean (boolean _) = true
is_boolean _ = false

unfoldable pub check_parts : Option Value → Option Value → Checked
unfolding check_provider get_field
check_parts (some (obj provider)) (some (obj automatic)) = and_then (check_provider provider) λ _.
    require (is_boolean (get_or "enabled" (boolean false) automatic))
      "automatic.enabled must be a boolean"
check_parts _ _ = raise (hub_error "Memory configuration requires provider and automatic mappings")

unfoldable pub validate_memory_config : Fields → Checked
unfolding check_parts get_field
validate_memory_config config =
    and_then
      (require (equals_number 1 (get_or "version" null config))
        "Memory configuration must declare version: 1")
      λ _. check_parts (get_field "provider" config) (get_field "automatic" config)

-- `value[key]` of a mapping
abbrev pub item : String → Option Value → Result Failure Value
item key (some (obj d)) = case_option (get_field key d) (raise (crash "KeyError")) ok
item key none = raise (crash "KeyError")
item key (some _) = raise (crash "TypeError")

-- `value.get(key, default)`
abbrev pub item_or : String → Value → Option Value → Result Failure Value
item_or key v (some (obj d)) = ok (get_or key v d)
item_or key v none = raise (crash "KeyError")
item_or key v (some _) = raise (crash "AttributeError")

pub record MemoryApplyArgs : Type 0 where
  pub file : String
  pub config : String
  pub overlay : String
  pub replace : Bool
  pub dry_run : Bool

pub record MemoryToggleArgs : Type 0 where
  pub config : String
  pub overlay : String
  pub enabled : Bool

module _ {Content : Type 0} (y : Yaml Content) where
  unfoldable pub load_memory_config : String → Option String → Files Content → Result Failure Fields
  unfolding read_yaml with_overlay validate_memory_config
  load_memory_config config overlay files = and_then (read_yaml y config false files) λ base.
      and_then (with_overlay y base overlay files)
        λ merged. and_then (validate_memory_config merged) λ _. ok merged

  -- The overlay that `cmd_memory_apply` writes and the configuration that it gives.
  unfoldable pub applied_memory : MemoryApplyArgs → Files Content → Result Failure (Fields × Fields)
  unfolding read_yaml merge_mapping validate_memory_config get_field
  applied_memory a files = and_then (read_yaml y a.file false files) λ incoming.
      and_then (is_version 1 (get_or "version" null incoming)) λ right.
        and_then (require right "Applied memory documents must use version: 1") λ _.
          and_then (if a.replace then ok end else read_yaml y a.overlay true files) λ current.
            let candidate = if a.replace then incoming else merge_mapping current incoming in
            and_then (read_yaml y a.config false files) λ base.
              let merged = merge_mapping base candidate in
              and_then (validate_memory_config merged) λ _. ok (candidate, merged)

  abbrev applied_report : Bool → Fields → Result Failure Fields
  applied_report dry_run merged = and_then (item "kind" (get_field "provider" merged)) λ kind.
      and_then (item_or "enabled" (boolean false) (get_field "automatic" merged)) λ enabled.
        and_then (item_or "required" (boolean false) (get_field "provider" merged)) λ required. ok (
          field "valid" (boolean true) (
            field "provider" kind (
              field "automatic_enabled" (boolean (truthy enabled)) (
                field "required" (boolean (truthy required))
                  (field "dry_run" (boolean dry_run) end)))))

  -- The printed result, and the files.
  unfoldable pub cmd_memory_apply :
      MemoryApplyArgs → Files Content → Result Failure Fields × Files Content
  unfolding applied_memory atomic_write
  cmd_memory_apply a files = elim (applied_memory a files) [
    | raise e ↦ (raise e, files)
    | ok plan ↦ elim (applied_report a.dry_run plan.1) [
      | raise e ↦ (raise e, files)
      | ok report ↦ (
        ok report,
        if a.dry_run then files else atomic_write a.overlay (y.safe_dump plan.0) files,
      )
    ]
  ]

  abbrev with_enabled : Bool → Value → Fields → Result Failure Fields
  with_enabled enabled (obj automatic) overlay =
      ok (put_field "automatic" (obj (put_field "enabled" (boolean enabled) automatic)) overlay)
  with_enabled enabled _ overlay =
      raise (hub_error "memory overlay automatic value must be a mapping")

  -- The overlay that `cmd_memory_toggle` writes and the configuration that it gives.
  unfoldable pub toggled_memory :
      MemoryToggleArgs → Files Content → Result Failure (Fields × Fields)
  unfolding read_yaml merge_mapping validate_memory_config get_field put_field
  toggled_memory a files = and_then (read_yaml y a.overlay true files) λ read.
      and_then (with_enabled a.enabled (get_or "automatic" (obj end) read) read) λ overlay.
        and_then (read_yaml y a.config false files) λ base.
          let merged = merge_mapping base overlay in
          and_then (validate_memory_config merged) λ _. ok (overlay, merged)

  abbrev pub toggled_report : Bool → Fields → Result Failure Fields
  toggled_report enabled merged =
      and_then (item_or "default_user_enabled" (boolean true) (get_field "automatic" merged))
        λ users. ok (
          field "status" (str (if enabled then "enabled" else "disabled"))
            (field "new_accounts_default_enabled" (boolean (truthy users)) end))

  -- The report is computed after the overlay is written.
  unfoldable pub cmd_memory_toggle :
      MemoryToggleArgs → Files Content → Result Failure Fields × Files Content
  unfolding toggled_memory atomic_write
  cmd_memory_toggle a files = elim (toggled_memory a files) [
    | raise e ↦ (raise e, files)
    | ok plan ↦ (toggled_report a.enabled plan.1, atomic_write a.overlay (y.safe_dump plan.0) files)
  ]
