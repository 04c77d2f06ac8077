-- ===== src/Tests/Applying.antt =====
-- The theorem on `catalog apply` at a catalog whose overlay gets a model with a list of capabilities.
use agent_ui.Prelude.{
  String, true, false, Bool, [], ◌∷◌, All, some, ◌≡◌, ◌≢◌, refl, arith, eq_iff, ok, string_eq, ◌==◌,
  ◌⊎◌, Bool-cases, inl, inr, subst,
}
use agent_ui.Prelude.Bind.{ok-injective}
use agent_ui.Prelude.Dict.{get}
use agent_ui.Prelude.Json.{Value, Fields, pos, int, str, arr, obj, nil, cons, end, field, get_field}
use agent_ui.Hub.Merge.Lookup.{IsDocument}
use agent_ui.Hub.Documents.{Files, read_yaml, mapping_or_raise}
use agent_ui.Hub.Catalogs.{CatalogApplyArgs, cmd_catalog_apply, load_catalog}
use agent_ui.Hub.Catalogs.Apply.{cmd_catalog_apply-load}
use agent_ui.Tests.Demo.{machine}
use agent_ui.Tests.Controls.{catalog}
use agent_ui.Tests.Overlays.{plain}

abbrev listed : Fields
listed =
    field "models"
      (obj (
        field "remote"
          (obj (
            field "backend" (str "local") (
              field "artifact" (obj (field "kind" (str "managed") end))
                (field "capabilities" (arr (cons (str "chat") nil)) end))))
          end))
      end

abbrev catalog_files : Files Value
catalog_files = ("catalog.yaml", obj catalog) ∷ ("new.yaml", obj listed) ∷ []

-- Files whose mappings are documents.
read-IsDocument :
    (files : Files Value)
    → All (λ file. (d : Fields) → mapping_or_raise (some (file.1)) ≡ ok d → IsDocument d) files
    → (path : String) (missing : Bool) (d : Fields) → read_yaml plain path missing files ≡ ok d
    → IsDocument d
unfolding read_yaml get
read-IsDocument [] each path true d h = subst IsDocument (ok-injective end d h) tt
read-IsDocument [] each path false d h = absurd (ground (arith, h))
read-IsDocument ((name, content) ∷ files) each path missing d h = elim (Bool-cases (name == path)) [
  | inl same ↦ each.0 d (rw same at h)
  | inr other ↦ read-IsDocument files each.1 path missing d (rw other at h)
]

abbrev apply : CatalogApplyArgs
apply = record {
  file = "new.yaml";
  catalog = "catalog.yaml";
  overlay = "local.yaml";
  replace = false;
  dry_run = false;
}

local_catalog : ◌≢◌ {A = String} "local.yaml" "catalog.yaml"
local_catalog = ground (arith, eq_iff "local.yaml" "catalog.yaml")

local_new : ◌≢◌ {A = String} "local.yaml" "new.yaml"
local_new = ground (arith, eq_iff "local.yaml" "new.yaml")

catalog_documents :
    All
      (λ file. (d : Fields) → mapping_or_raise (some (file.1)) ≡ ok d → IsDocument d)
      catalog_files
unfolding get_field
catalog_documents = (
  (λ d h. subst IsDocument (ok-injective catalog d h) (
    refl,
    (refl, (refl, (refl, tt), tt), (refl, (refl, (refl, (refl, (refl, (refl, tt)), tt)), tt), tt)),
  )),
  (
    (λ d h.
        subst IsDocument (ok-injective listed d h)
          (refl, (refl, (refl, (refl, (refl, tt), (refl, tt))), tt), tt)),
    tt,
  ),
)

cmd_catalog_apply-load_example :
    (get "new.yaml" (cmd_catalog_apply plain machine apply catalog_files).1
      ≡ get "new.yaml" catalog_files)
    × (((cmd_catalog_apply plain machine apply catalog_files).1 ≡ catalog_files)
        ⊎ ((checked : Fields) × ((cmd_catalog_apply plain machine apply catalog_files).0
              ≡ ok checked)
            × (load_catalog plain machine "catalog.yaml"
                  (some "local.yaml")
                  (cmd_catalog_apply plain machine apply catalog_files).1
                ≡ ok checked)))
cmd_catalog_apply-load_example =
    cmd_catalog_apply-load plain machine apply catalog_files
      (cmd_catalog_apply plain machine apply catalog_files).0
      (cmd_catalog_apply plain machine apply catalog_files).1 "new.yaml" (λ d. refl)
      (read-IsDocument catalog_files catalog_documents) local_catalog local_new refl

abbrev written_overlay : Value
written_overlay = obj (
    field "models"
      (obj (
        field "remote"
          (obj (
            field "backend" (str "local") (
              field "artifact" (obj (field "kind" (str "managed") end))
                (field "capabilities" (obj (field "chat" (obj end) end)) end))))
          end))
      (field "version" (int (pos 2)) end))

apply_run :
    get "local.yaml" (cmd_catalog_apply plain machine apply catalog_files).1 ≡ some written_overlay
unfolding cmd_catalog_apply get
apply_run = refl
