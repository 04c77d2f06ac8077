-- ===== src/Hub/Memory/Toggle.antt =====
-- What `memory enable` and `memory disable` of ops/hubctl.py leave for the next load.
use agent_ui.Prelude.{
  String, Bool, true, false, Option, none, some, ◌≡◌, ◌≢◌, refl, arith, eq_iff, string_eq,
  Option-cases, inl, inr, sym, ◌∙◌, ap, subst, ok, if◌then◌else◌,
}
use agent_ui.Prelude.Bind.{and_then-Ran}
use agent_ui.Prelude.Dict.{get-put_self}
use agent_ui.Prelude.Json.{
  Value, Fields, null, boolean, int, float, str, arr, obj, end, field, get_field, put_field,
  get-put_same, truthy,
}
use agent_ui.Hub.Merge.{merge_mapping}
use agent_ui.Hub.Merge.Lookup.{
  merge_mapping-get, merged_value, merge_mapping-put, IsDistinct, IsDocument, put-IsDistinct,
  Document-IsDistinct, get-IsDocument,
}
use agent_ui.Hub.Documents.{Yaml, Files, read_yaml, atomic_write, get_or, equals_number, require}
use agent_ui.Hub.Documents.Overlays.{read-other}
use agent_ui.Hub.Memory.Loading.{load-merged, merged-load}
use agent_ui.Hub.Memory.{
  validate_memory_config, check_parts, check_provider, load_memory_config, toggled_memory,
  cmd_memory_toggle, toggled_report, MemoryToggleArgs,
}

check_parts-provider :
    (provider : Option Value) (automatic : Option Value)
    → check_parts provider automatic ≡ ok tt
    → (p : Fields) × (provider ≡ some (obj p)) × (check_provider p ≡ ok tt)
unfolding check_parts
check_parts-provider (some (obj p)) (some (obj automatic)) h =
    let (_, first, _) = and_then-Ran (check_provider p) _ tt h in (p, refl, first)
check_parts-provider (some (obj _)) (some null) h = absurd (ground (arith, h))
check_parts-provider (some (obj _)) (some (boolean _)) h = absurd (ground (arith, h))
check_parts-provider (some (obj _)) (some (int _)) h = absurd (ground (arith, h))
check_parts-provider (some (obj _)) (some (float _)) h = absurd (ground (arith, h))
check_parts-provider (some (obj _)) (some (str _)) h = absurd (ground (arith, h))
check_parts-provider (some (obj _)) (some (arr _)) h = absurd (ground (arith, h))
check_parts-provider (some (obj _)) none h = absurd (ground (arith, h))
check_parts-provider none automatic h = absurd (ground (arith, h))
check_parts-provider (some null) automatic h = absurd (ground (arith, h))
check_parts-provider (some (boolean _)) automatic h = absurd (ground (arith, h))
check_parts-provider (some (int _)) automatic h = absurd (ground (arith, h))
check_parts-provider (some (float _)) automatic h = absurd (ground (arith, h))
check_parts-provider (some (str _)) automatic h = absurd (ground (arith, h))
check_parts-provider (some (arr _)) automatic h = absurd (ground (arith, h))

-- The check reads three keys, and of the automatic mapping only whether it is enabled.
validate-enabled :
    (d e next : Fields) (enabled : Bool)
    → validate_memory_config d ≡ ok tt
    → get_field "version" e ≡ get_field "version" d
    → get_field "provider" e ≡ get_field "provider" d
    → get_field "automatic" e ≡ some (obj next)
    → get_field "enabled" next ≡ some (boolean enabled)
    → validate_memory_config e ≡ ok tt
unfolding validate_memory_config check_parts
validate-enabled d e next enabled h version provider automatic at =
    let (_, first, rest) =
      and_then-Ran (require (equals_number 1 (get_or "version" null d)) _) _ tt h in
    let (p, is, checked) =
      check_parts-provider (get_field "provider" d) (get_field "automatic" d) rest in
    rw (version, provider, automatic, first, is, checked, at) refl

-- A merged document holds the mapping of its overlay with its own value under a key.
merged-flag :
    (base : Option Value) (next : Fields) (enabled : Bool)
    → ((d : Fields) → base ≡ some (obj d) → IsDistinct d)
    → IsDistinct next
    → get_field "enabled" next ≡ some (boolean enabled)
    → (auto : Fields) × (merged_value base (some (obj next)) ≡ some (obj auto))
      × (get_field "enabled" auto ≡ some (boolean enabled))
unfolding merged_value
merged-flag (some (obj d)) next enabled distinct h at = (
  merge_mapping d next,
  refl,
  merge_mapping-get "enabled" d next (distinct d refl) h
      ∙ ap (merged_value (get_field "enabled" d)) at,
)
merged-flag none next enabled distinct h at = (next, refl, at)
merged-flag (some null) next enabled distinct h at = (next, refl, at)
merged-flag (some (boolean _)) next enabled distinct h at = (next, refl, at)
merged-flag (some (int _)) next enabled distinct h at = (next, refl, at)
merged-flag (some (float _)) next enabled distinct h at = (next, refl, at)
merged-flag (some (str _)) next enabled distinct h at = (next, refl, at)
merged-flag (some (arr _)) next enabled distinct h at = (next, refl, at)

module _ {Content : Type 0} (y : Yaml Content) where
  report-Ends :
      (enabled : Bool) (merged switched : Fields)
      → get_field "automatic" merged ≡ some (obj switched)
      → (report : Fields) × (toggled_report y enabled merged ≡ ok report)
  report-Ends enabled merged switched at = (
    field "status" (str (if enabled then "enabled" else "disabled")) (
        field "new_accounts_default_enabled"
          (boolean (truthy (get_or "default_user_enabled" (boolean true) switched))) end),
    rw at refl,
  )

automatic_version : ◌≢◌ {A = String} "automatic" "version"
automatic_version = ground (arith, eq_iff "automatic" "version")

automatic_provider : ◌≢◌ {A = String} "automatic" "provider"
automatic_provider = ground (arith, eq_iff "automatic" "provider")

module _ {Content : Type 0} (y : Yaml Content) (a : MemoryToggleArgs) (files : Files Content)
    (base above auto : Fields) where
  abbrev switched_overlay : Fields
  switched_overlay =
      put_field "automatic" (obj (put_field "enabled" (boolean a.enabled) auto)) above

  toggled-merged :
      read_yaml y a.config false files ≡ ok base
      → read_yaml y a.overlay true files ≡ ok above
      → get_or "automatic" (obj end) above ≡ obj auto
      → validate_memory_config (merge_mapping base switched_overlay) ≡ ok tt
      → toggled_memory y a files ≡ ok (switched_overlay, merge_mapping base switched_overlay)
  unfolding toggled_memory
  toggled-merged lower upper mapping valid = rw (upper, mapping, lower, valid) refl

  toggle-run :
      (overlay merged report : Fields)
      → toggled_memory y a files ≡ ok (overlay, merged)
      → toggled_report y a.enabled merged ≡ ok report
      → cmd_memory_toggle y a files
        ≡ (ok report, atomic_write a.overlay (y.safe_dump overlay) files)
  unfolding cmd_memory_toggle
  toggle-run overlay merged report run reports = rw (run, cmd_memory_toggle, reports) refl

  auto-IsDistinct :
      IsDocument above → get_or "automatic" (obj end) above ≡ obj auto → IsDistinct auto
  auto-IsDistinct doc mapping = elim (Option-cases (get_field "automatic" above)) [
    | inl absent ↦
        let is_end : end ≡ auto = ground (arith, rw absent at mapping) in subst IsDistinct is_end tt
    | inr (v, there) ↦
        Document-IsDistinct auto
          (get-IsDocument "automatic" above auto doc (ground (arith, there, rw there at mapping)))
  ]

  -- Where the configuration loads, no mapping has a key twice, the overlay has a mapping or
  -- nothing under the automatic key and is another file than the configuration, and YAML reads
  -- back what it has written, the switch returns, and the next load gives a configuration that is
  -- switched as asked and holds what it held before under every other key.
  pub cmd_memory_toggle-load :
      (before : Fields) (k : String)
      → ((d : Fields) → y.safe_load (y.safe_dump d) ≡ some (obj d))
      → a.overlay ≢ a.config
      → "automatic" ≢ k
      → read_yaml y a.config false files ≡ ok base
      → read_yaml y a.overlay true files ≡ ok above
      → IsDocument base
      → IsDocument above
      → get_or "automatic" (obj end) above ≡ obj auto
      → load_memory_config y a.config (some a.overlay) files ≡ ok before
      → (report after switched : Fields) × (written : Files Content) × (cmd_memory_toggle y a files
          ≡ (ok report, written))
        × (load_memory_config y a.config (some a.overlay) written ≡ ok after)
        × (get_field "automatic" after ≡ some (obj switched))
        × (get_field "enabled" switched ≡ some (boolean a.enabled))
        × (get_field k after ≡ get_field k before)
  unfolding atomic_write
  cmd_memory_toggle-load before k law apart other lower upper doc_base doc_above mapping h =
      let (is_before, valid) =
        load-merged y a.config a.overlay files base above before lower upper h in
      let flag = boolean a.enabled in
      let next = put_field "enabled" flag auto in
      let merged = merge_mapping base switched_overlay in
      let distinct = Document-IsDistinct base doc_base in
      let distinct_above = Document-IsDistinct above doc_above in
      let kept : (j : String) → "automatic" ≢ j → get_field j merged ≡ get_field j before =
        λ j apart_j.
          merge_mapping-put "automatic" j (obj next) base above distinct distinct_above apart_j
          ∙ ap (get_field j) (sym is_before) in
      let at : get_field "enabled" next ≡ some flag = get-put_same "enabled" flag auto in
      let (switched, is_switched, is_enabled) =
        merged-flag (get_field "automatic" base) next a.enabled
          (λ d there. Document-IsDistinct d (get-IsDocument "automatic" base d doc_base there))
          (put-IsDistinct "enabled" flag auto (auto-IsDistinct doc_above mapping)) at in
      let is_auto : get_field "automatic" merged ≡ some (obj switched) =
        merge_mapping-get "automatic" base switched_overlay distinct
          (put-IsDistinct "automatic" (obj next) above distinct_above)
        ∙ ap (merged_value (get_field "automatic" base)) (get-put_same "automatic" (obj next) above)
        ∙ is_switched in
      let now_valid =
        validate-enabled before merged switched a.enabled valid (kept "version" automatic_version)
          (kept "provider" automatic_provider) is_auto is_enabled in
      let run = toggled-merged lower upper mapping now_valid in
      let (report, reports) = report-Ends y a.enabled merged switched is_auto in
      let written = atomic_write a.overlay (y.safe_dump switched_overlay) files in
      (
        report,
        merged,
        switched,
        written,
        toggle-run switched_overlay merged report run reports,
        merged-load y a.config a.overlay written base switched_overlay
            (read-other y a.config a.overlay (y.safe_dump switched_overlay) files apart ∙ lower)
            (get-put_self a.overlay (y.safe_dump switched_overlay) files) (law switched_overlay)
            now_valid,
        is_auto,
        is_enabled,
        kept k other,
      )
