-- ===== src/Hub/Catalogs.antt =====
-- The catalog commands of ops/hubctl.py that write an overlay: `catalog apply` and `model register`.
-- The check of a merged catalog replaces lists of capabilities in place, so it changes the models of
-- the overlay that the merge has not copied.
pub mod Relation
pub mod Revalidated
pub mod Apply
use agent_ui.Prelude.{
  String, Bool, true, false, Option, some, Result, ok, raise, and_then, if◌then◌else◌,
}
use agent_ui.Prelude.Json.{
  Value, Fields, ℤ, null, int, obj, end, field, get_field, put_field, set_default,
}
use agent_ui.Host.{Host}
use agent_ui.Hub.Merge.{merge_mapping}
use agent_ui.Hub.Documents.{
  Failure, Yaml, Files, read_yaml, with_overlay, atomic_write, get_or, is_version, require,
}
use agent_ui.Hub.Validation.{validate_catalog, with_capabilities}

-- A mapping, or an empty one for any other value.
abbrev pub mapping_part : Option Value → Fields
mapping_part (some (obj d)) = d
mapping_part _ = end

-- The models of an overlay after the check: those that the base does not have as mappings are the
-- checked ones.
unfoldable pub checked_models : Host → Fields → Fields → Fields
unfolding with_capabilities get_field
checked_models h base end = end
checked_models h base (field id (obj model) rest) = elim (get_field id base) [
  | some (obj _) ↦ field id (obj model) (checked_models h base rest)
  | _ ↦ field id (obj (with_capabilities h model)) (checked_models h base rest)
]
checked_models h base (field id v rest) = field id v (checked_models h base rest)

-- The overlay after the check of the merged catalog.
unfoldable pub checked_overlay : Host → Fields → Fields → Fields
unfolding checked_models get_field put_field
checked_overlay h base overlay = elim (get_field "models" overlay) [
  | some (obj models) ↦
      put_field "models" (obj (checked_models h (mapping_part (get_field "models" base)) models))
        overlay
  | _ ↦ overlay
]

pub record CatalogApplyArgs : Type 0 where
  pub file : String
  pub catalog : String
  pub overlay : String
  pub replace : Bool
  pub dry_run : Bool

module _ {Content : Type 0} (y : Yaml Content) where
  unfoldable pub load_catalog :
      Host → String → Option String → Files Content → Result Failure Fields
  unfolding read_yaml with_overlay validate_catalog
  load_catalog h catalog overlay files =
      and_then (read_yaml y catalog false files)
        λ base. and_then (with_overlay y base overlay files) λ merged. validate_catalog h merged

  -- The overlay that `cmd_catalog_apply` writes, and the catalog that it has checked.
  unfoldable pub applied_catalog :
      Host → CatalogApplyArgs → Files Content → Result Failure (Fields × Fields)
  unfolding read_yaml merge_mapping validate_catalog checked_overlay set_default get_field
  applied_catalog h a files = and_then (read_yaml y a.file false files) λ read.
      and_then (is_version 2 (get_or "version" null read)) λ right.
        and_then (require right "Applied catalog documents must use version: 2") λ _.
          let incoming = set_default "version" (int (ℤ.pos 2)) read in
          and_then (if a.replace then ok end else read_yaml y a.overlay true files) λ current.
            let candidate =
              set_default "version" (int (ℤ.pos 2))
                (if a.replace then incoming else merge_mapping current incoming) in
            and_then (read_yaml y a.catalog false files) λ base.
              and_then (validate_catalog h (merge_mapping base candidate))
                λ checked. ok (checked_overlay h base candidate, checked)

  -- The checked catalog, which is reported, and the files.
  unfoldable pub cmd_catalog_apply :
      Host → CatalogApplyArgs → Files Content → Result Failure Fields × Files Content
  unfolding applied_catalog atomic_write
  cmd_catalog_apply h a files = elim (applied_catalog h a files) [
    | raise e ↦ (raise e, files)
    | ok plan ↦
        (ok plan.1, if a.dry_run then files else atomic_write a.overlay (y.safe_dump plan.0) files)
  ]
