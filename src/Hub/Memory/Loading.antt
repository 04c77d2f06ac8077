-- ===== src/Hub/Memory/Loading.antt =====
-- What it takes for ops/hubctl.py to load a memory configuration.
use agent_ui.Prelude.{String, true, false, some, ◌≡◌, refl, arith, string_eq, sym, ◌∙◌, ap, ok}
use agent_ui.Prelude.Bind.{and_then-Ran}
use agent_ui.Prelude.Dict.{get}
use agent_ui.Prelude.Json.{Fields, obj}
use agent_ui.Hub.Merge.{merge_mapping}
use agent_ui.Hub.Documents.{Yaml, Files, read_yaml, with_overlay}
use agent_ui.Hub.Documents.Overlays.{overlaid, written}
use agent_ui.Hub.Memory.{validate_memory_config, load_memory_config}

module _ {Content : Type 0} (y : Yaml Content) where
  -- A configuration that loads is the merged documents, and is valid.
  pub load-merged :
      (config overlay : String) (files : Files Content) (base above before : Fields)
      → read_yaml y config false files ≡ ok base
      → read_yaml y overlay true files ≡ ok above
      → load_memory_config y config (some overlay) files ≡ ok before
      → (before ≡ merge_mapping base above) × (validate_memory_config before ≡ ok tt)
  unfolding load_memory_config
  load-merged config overlay files base above before lower upper h =
      let (b, low, more) = and_then-Ran (read_yaml y config false files) _ before h in
      let (m, high, last) = and_then-Ran (with_overlay y b (some overlay) files) _ before more in
      let (_, valid, same) = and_then-Ran (validate_memory_config m) _ before last in
      let is_base : b ≡ base = ground (arith, low, lower) in
      let is_merged = overlaid y b above m overlay files upper high in
      let is_before : m ≡ before = ground (arith, same) in
      (
        sym is_before ∙ is_merged ∙ ap (λ x. merge_mapping x above) is_base,
        ap validate_memory_config (sym is_before) ∙ valid,
      )

  -- It loads where both documents are read and what they give is valid.
  pub merged-load :
      (config overlay : String) (files : Files Content) (base above : Fields)
      → read_yaml y config false files ≡ ok base
      → get overlay files ≡ some (y.safe_dump above)
      → y.safe_load (y.safe_dump above) ≡ some (obj above)
      → validate_memory_config (merge_mapping base above) ≡ ok tt
      → load_memory_config y config (some overlay) files ≡ ok (merge_mapping base above)
  unfolding load_memory_config
  merged-load config overlay files base above lower upper reads valid =
      rw (lower, written y base above overlay files upper reads, valid) refl
