-- ===== src/Hub/Catalogs/Apply.antt =====
-- What `catalog apply` of ops/hubctl.py leaves on disk.
use agent_ui.Prelude.{
  String, Bool, true, false, Option, none, some, ◌≡◌, ◌≢◌, refl, arith, ◌⊎◌, string_eq,
  Option-cases, Bool-cases, inl, inr, sym, ◌∙◌, ap, ok, Result, if◌then◌else◌,
}
use agent_ui.Prelude.Bind.{and_then-Ran, ok-injective, Result-cases}
use agent_ui.Prelude.Dict.{get, put, get-put_self, get-put_ne}
use agent_ui.Prelude.Json.{
  Value, Fields, ℤ, null, boolean, int, float, str, arr, obj, end, get_field, put_field,
  set_default,
}
use agent_ui.Host.{Host}
use agent_ui.Hub.Merge.{merge_mapping}
use agent_ui.Hub.Merge.Lookup.{
  IsDocument, IsDistinct, Document-IsDistinct, get-IsDocument, merge_mapping-get, merged_value,
}
use agent_ui.Hub.Merge.Replaced.{merge-replaced, merged_mapping, merged_value-obj}
use agent_ui.Hub.Merge.Documents.{merge-IsDocument, put-IsDocument}
use agent_ui.Hub.Documents.{
  Yaml, Files, Failure, read_yaml, atomic_write, get_or, is_version, require,
}
use agent_ui.Hub.Documents.Overlays.{read-other, written}
use agent_ui.Hub.Validation.{validate_catalog}
use agent_ui.Hub.Catalogs.{
  mapping_part, checked_models, checked_overlay, CatalogApplyArgs, load_catalog, applied_catalog,
  cmd_catalog_apply,
}
use agent_ui.Hub.Catalogs.Relation.{merged-AreChecked}
use agent_ui.Hub.Catalogs.Revalidated.{validate_catalog-again}

module _ (h : Host) (base : Fields) where
  mapping_part-IsDistinct :
      (o : Option Value)
      → ((d : Fields) → o ≡ some (obj d) → IsDocument d)
      → IsDistinct (mapping_part o)
  mapping_part-IsDistinct (some (obj d)) own = Document-IsDistinct d (own d refl)
  mapping_part-IsDistinct none own = tt
  mapping_part-IsDistinct (some null) own = tt
  mapping_part-IsDistinct (some (boolean _)) own = tt
  mapping_part-IsDistinct (some (int _)) own = tt
  mapping_part-IsDistinct (some (float _)) own = tt
  mapping_part-IsDistinct (some (str _)) own = tt
  mapping_part-IsDistinct (some (arr _)) own = tt

  replaced-again :
      (overlay models : Fields)
      → IsDocument base
      → IsDocument overlay
      → get_field "models" overlay ≡ some (obj models)
      → validate_catalog h (
          merge_mapping base (
            put_field "models"
              (obj (checked_models h (mapping_part (get_field "models" base)) models))
              overlay))
        ≡ validate_catalog h (merge_mapping base overlay)
  replaced-again overlay models doc_base doc at =
      let own = get_field "models" base in
      let distinct = Document-IsDistinct base doc_base in
      let distinct_overlay = Document-IsDistinct overlay doc in
      let new = checked_models h (mapping_part own) models in
      ap (validate_catalog h)
        (merge-replaced "models" base overlay models new distinct distinct_overlay at)
      ∙ validate_catalog-again h (merge_mapping base overlay) (merged_mapping own models)
          (merged_mapping own new)
          (merge_mapping-get "models" base overlay distinct distinct_overlay
            ∙ ap (merged_value own) at
            ∙ merged_value-obj own models)
          (merged-AreChecked h own models
            (mapping_part-IsDistinct own (λ d there. get-IsDocument "models" base d doc_base there))
            (Document-IsDistinct models (get-IsDocument "models" overlay models doc at)))

  -- The overlay that is written checks like the one that was merged.
  checked_overlay-again :
      (overlay : Fields)
      → IsDocument base
      → IsDocument overlay
      → validate_catalog h (merge_mapping base (checked_overlay h base overlay))
        ≡ validate_catalog h (merge_mapping base overlay)
  unfolding checked_overlay
  checked_overlay-again overlay doc_base doc = by-lookup (get_field "models" overlay) refl
    where
      by-lookup :
          (o : Option Value)
          → get_field "models" overlay ≡ o
          → validate_catalog h (merge_mapping base (checked_overlay h base overlay))
            ≡ validate_catalog h (merge_mapping base overlay)
      by-lookup (some (obj models)) at =
          rw (at, checked_overlay) (replaced-again overlay models doc_base doc at)
      by-lookup none at = rw (at, checked_overlay) refl
      by-lookup (some null) at = rw (at, checked_overlay) refl
      by-lookup (some (boolean _)) at = rw (at, checked_overlay) refl
      by-lookup (some (int _)) at = rw (at, checked_overlay) refl
      by-lookup (some (float _)) at = rw (at, checked_overlay) refl
      by-lookup (some (str _)) at = rw (at, checked_overlay) refl
      by-lookup (some (arr _)) at = rw (at, checked_overlay) refl

set_default-IsDocument :
    (k : String) (n : ℤ) (d : Fields) → IsDocument d → IsDocument (set_default k (int n) d)
unfolding set_default
set_default-IsDocument k n d doc = elim (Option-cases (get_field k d)) [
  | inl absent ↦
      rw (absent, set_default)
        (put-IsDocument k (int n) d (λ e same. absurd (ground (arith, same))) doc)
  | inr (v, there) ↦ rw (there, set_default) doc
]

candidate-IsDocument :
    (replace : Bool) (incoming current : Fields) (r : Result Failure Fields)
    → (if replace then ok end else r) ≡ ok current
    → (r ≡ ok current → IsDocument current)
    → IsDocument incoming
    → IsDocument (if replace then incoming else merge_mapping current incoming)
candidate-IsDocument true incoming current r read doc doc_incoming = doc_incoming
candidate-IsDocument false incoming current r read doc doc_incoming =
    merge-IsDocument current incoming (doc read) doc_incoming

module _ {Content : Type 0} (y : Yaml Content) (h : Host) (a : CatalogApplyArgs)
    (files : Files Content) where
  applied-checked :
      (overlay checked : Fields)
      → ((path : String) (missing : Bool) (d : Fields)
          → read_yaml y path missing files ≡ ok d
          → IsDocument d)
      → applied_catalog y h a files ≡ ok (overlay, checked)
      → (base : Fields) × (read_yaml y a.catalog false files ≡ ok base)
        × (validate_catalog h (merge_mapping base overlay) ≡ ok checked)
  unfolding applied_catalog
  applied-checked overlay checked docs run =
      let plan : Fields × Fields = (overlay, checked) in
      let two = ℤ.pos 2 in
      let (read, first, at_version) = and_then-Ran (read_yaml y a.file false files) _ plan run in
      let (right, _, at_right) =
        and_then-Ran (is_version 2 (get_or "version" null read)) _ plan at_version in
      let (_, _, at_current) = and_then-Ran (require right _) _ plan at_right in
      let incoming = set_default "version" (int two) read in
      let (current, second, at_base) =
        and_then-Ran (if a.replace then ok end else read_yaml y a.overlay true files) _ plan
          at_current in
      let own = if a.replace then incoming else merge_mapping current incoming in
      let candidate = set_default "version" (int two) own in
      let (base, lower, at_valid) =
        and_then-Ran (read_yaml y a.catalog false files) _ plan at_base in
      let (result, valid, last) =
        and_then-Ran (validate_catalog h (merge_mapping base candidate)) _ plan at_valid in
      let same : ◌≡◌ {A = Fields × Fields} (checked_overlay h base candidate, result) plan =
        ok-injective _ plan last in
      let doc_incoming = set_default-IsDocument "version" two read (docs a.file false read first) in
      let doc_base = docs a.catalog false base lower in
      let doc_own : IsDocument own =
        candidate-IsDocument a.replace incoming current (read_yaml y a.overlay true files) second
          (docs a.overlay true current) doc_incoming in
      (
        base,
        lower,
        ap (λ p. validate_catalog h (merge_mapping base p.0)) (sym same)
            ∙ checked_overlay-again h base candidate doc_base
                (set_default-IsDocument "version" two own doc_own)
            ∙ valid
            ∙ ap (λ p. ok p.1) same,
      )

  catalog_written :
      (base overlay checked : Fields)
      → ((d : Fields) → y.safe_load (y.safe_dump d) ≡ some (obj d))
      → a.overlay ≢ a.catalog
      → read_yaml y a.catalog false files ≡ ok base
      → validate_catalog h (merge_mapping base overlay) ≡ ok checked
      → load_catalog y h a.catalog (some a.overlay) (put a.overlay (y.safe_dump overlay) files)
        ≡ ok checked
  unfolding load_catalog
  catalog_written base overlay checked law apart lower valid =
      let content = y.safe_dump overlay in
      let low = read-other y a.catalog a.overlay content files apart ∙ lower in
      rw
        (
          low,
          written y base overlay a.overlay (put a.overlay content files)
              (get-put_self a.overlay content files) (law overlay),
        )
        valid

  -- `catalog apply` leaves every file but its overlay as it was, and it leaves all files as they
  -- were, or it returns the catalog that it has checked and the next load gives that catalog,
  -- although the check may have changed what is written, where no mapping of a file has a key
  -- twice, the overlay is another file than the catalog, and YAML reads back what it has written.
  pub cmd_catalog_apply-load :
      (outcome : Result Failure Fields) (after : Files Content) (path : String)
      → ((d : Fields) → y.safe_load (y.safe_dump d) ≡ some (obj d))
      → ((path : String) (missing : Bool) (d : Fields)
          → read_yaml y path missing files ≡ ok d
          → IsDocument d)
      → a.overlay ≢ a.catalog
      → a.overlay ≢ path
      → cmd_catalog_apply y h a files ≡ (outcome, after)
      → (get path after ≡ get path files)
        × ((after ≡ files)
            ⊎ ((checked : Fields) × (outcome ≡ ok checked)
                × (load_catalog y h a.catalog (some a.overlay) after ≡ ok checked)))
  unfolding cmd_catalog_apply atomic_write
  cmd_catalog_apply-load outcome after path law docs apart other run =
      elim (Result-cases (applied_catalog y h a files)) [
        | inl (e, failed) ↦
            let same = ap (λ p. p.1) (rw (failed, cmd_catalog_apply) at run) in
            (ap (get path) (sym same), inl (sym same))
        | inr (plan, planned) ↦ elim (Bool-cases a.dry_run) [
          | inl dry ↦
              let same = ap (λ p. p.1) (rw (planned, cmd_catalog_apply, dry) at run) in
              (ap (get path) (sym same), inl (sym same))
          | inr wet ↦
              let ended = rw (planned, cmd_catalog_apply, wet) at run in
              let content = y.safe_dump plan.0 in
              let (base, lower, valid) = applied-checked plan.0 plan.1 docs planned in
              (
                ap (λ p. get path p.1) (sym ended) ∙ get-put_ne a.overlay path content files other,
                inr (
                  plan.1,
                  ap (λ p. p.0) (sym ended),
                  ap (λ p. load_catalog y h a.catalog (some a.overlay) p.1) (sym ended)
                      ∙ catalog_written base plan.0 plan.1 law apart lower valid,
                ),
              )
        ]
      ]
