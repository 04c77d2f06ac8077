-- ===== src/Tests/Overlays.antt =====
-- The theorems on the documents of the control plane at concrete documents.
use agent_ui.Prelude.{
  String, ℕ, true, false, [], ◌∷◌, some, ◌≡◌, ◌≢◌, refl, arith, eq_iff, ok, string_eq, ◌⊎◌,
}
use agent_ui.Prelude.Dict.{get}
use agent_ui.Prelude.Json.{
  Value, Fields, pos, null, boolean, int, str, obj, end, field, get_field, put_field,
}
use agent_ui.Hub.Merge.{merge_mapping}
use agent_ui.Hub.Merge.Lookup.{merged_value, merge_mapping-get}
use agent_ui.Hub.Documents.{Yaml, Files, read_yaml}
use agent_ui.Hub.Memory.{
  MemoryApplyArgs, MemoryToggleArgs, load_memory_config, cmd_memory_apply, cmd_memory_toggle,
}
use agent_ui.Hub.Memory.Toggle.{cmd_memory_toggle-load}
use agent_ui.Hub.Memory.Apply.{cmd_memory_apply-load}

abbrev number : ℕ → Value
number n = int (pos n)

abbrev base : Fields
base = field "a" (obj (field "x" (number 1) (field "y" (number 2) end))) (field "b" (number 3) end)

abbrev overlay : Fields
overlay = field "a" (obj (field "x" null end)) (field "c" (number 4) end)

merge_mapping-get_example :
    get_field "a" (merge_mapping base overlay)
    ≡ merged_value (get_field "a" base) (get_field "a" overlay)
unfolding get_field
merge_mapping-get_example = merge_mapping-get "a" base overlay (refl, (refl, tt)) (refl, (refl, tt))

merged_run :
    merge_mapping base overlay
    ≡ field "a" (obj (field "y" (number 2) end)) (field "b" (number 3) (field "c" (number 4) end))
unfolding merge_mapping get_field put_field
merged_run = refl

-- Files that hold their documents.
abbrev pub plain : Yaml Value
plain = record { safe_load = some; load_text = λ s. some (str s); safe_dump = obj }

abbrev memory_base : Fields
memory_base = field "version" (number 1) (
    field "provider" (obj (field "kind" (str "disabled") end))
      (field "automatic" (obj (field "enabled" (boolean false) end)) end))

abbrev memory_overlay : Fields
memory_overlay = field "automatic" (obj (field "capture" (boolean true) end)) end

abbrev memory_files : Files Value
memory_files =
    ("base.yaml", obj memory_base)
    ∷ ("local.yaml", obj memory_overlay)
    ∷ ("new.yaml", obj (field "provider" (obj (field "required" (boolean true) end)) end))
    ∷ []

abbrev toggle : MemoryToggleArgs
toggle = record { config = "base.yaml"; overlay = "local.yaml"; enabled = true }

abbrev loaded_before : Fields
loaded_before = field "version" (number 1) (
    field "provider" (obj (field "kind" (str "disabled") end)) (
      field "automatic" (obj (field "enabled" (boolean false) (field "capture" (boolean true) end)))
        end))

loads_before :
    load_memory_config plain "base.yaml" (some "local.yaml") memory_files ≡ ok loaded_before
unfolding load_memory_config
loads_before = refl

local_base : ◌≢◌ {A = String} "local.yaml" "base.yaml"
local_base = ground (arith, eq_iff "local.yaml" "base.yaml")

automatic_provider : ◌≢◌ {A = String} "automatic" "provider"
automatic_provider = ground (arith, eq_iff "automatic" "provider")

local_new : ◌≢◌ {A = String} "local.yaml" "new.yaml"
local_new = ground (arith, eq_iff "local.yaml" "new.yaml")

cmd_memory_toggle-load_example :
    (report after switched : Fields) × (written : Files Value) × (cmd_memory_toggle plain toggle
        memory_files
      ≡ (ok report, written))
    × (load_memory_config plain "base.yaml" (some "local.yaml") written ≡ ok after)
    × (get_field "automatic" after ≡ some (obj switched))
    × (get_field "enabled" switched ≡ some (boolean true))
    × (get_field "provider" after ≡ get_field "provider" loaded_before)
unfolding get_field read_yaml
cmd_memory_toggle-load_example =
    cmd_memory_toggle-load plain toggle memory_files memory_base memory_overlay
      (field "capture" (boolean true) end) loaded_before "provider" (λ d. refl) local_base
      automatic_provider refl refl (refl, (refl, (refl, tt), (refl, (refl, tt), tt)))
      (refl, (refl, tt), tt) refl loads_before

abbrev applied : MemoryApplyArgs
applied = record {
  file = "new.yaml";
  config = "base.yaml";
  overlay = "local.yaml";
  replace = false;
  dry_run = false;
}

cmd_memory_apply-load_example :
    (get "new.yaml" (cmd_memory_apply plain applied memory_files).1 ≡ get "new.yaml" memory_files)
    × (((cmd_memory_apply plain applied memory_files).1 ≡ memory_files)
        ⊎ ((c : Fields) × (load_memory_config plain "base.yaml"
                (some "local.yaml")
                (cmd_memory_apply plain applied memory_files).1
              ≡ ok c)))
cmd_memory_apply-load_example =
    cmd_memory_apply-load plain applied memory_files (cmd_memory_apply plain applied memory_files).0
      (cmd_memory_apply plain applied memory_files).1 "new.yaml" (λ d. refl) local_base local_new
      refl
