-- ===== src/Hub/Catalogs/Revalidated.antt =====
-- The check of ops/hubctl.py on models that have been through it.
use agent_ui.Prelude.{
  String, Option, none, some, ◌≡◌, ◌≢◌, refl, arith, eq_iff, ◌==◌, string_eq, Bool-cases, inl, inr,
  sym, ◌∙◌, ap, is_some, ok, Result, case_option, and_then,
}
use agent_ui.Prelude.Json.{
  Value, Fields, null, boolean, int, float, str, arr, obj, end, field, get_field, put_field,
  get-put_same, get-put_other,
}
use agent_ui.Host.{Host}
use agent_ui.Hub.Documents.{Failure, get_or, require, equals_number}
use agent_ui.Hub.Merge.Replaced.{put-put_same}
use agent_ui.Hub.Validation.{
  with_capabilities, capability_dict, is_key_of, validate_model, validate_models, check_experience,
  validate_experiences, validate_sections, validate_catalog, with_models, section_of,
  section_mapping, validate_backends,
}
use agent_ui.Hub.Validation.Facts.{with_capabilities-other}
use agent_ui.Hub.Catalogs.Relation.{AreChecked, both_end, both_field}

other_backend : ◌≢◌ {A = String} "capabilities" "backend"
other_backend = ground (arith, eq_iff "capabilities" "backend")

other_artifact : ◌≢◌ {A = String} "capabilities" "artifact"
other_artifact = ground (arith, eq_iff "capabilities" "artifact")

other_version : ◌≢◌ {A = String} "models" "version"
other_version = ground (arith, eq_iff "models" "version")

other_backends : ◌≢◌ {A = String} "models" "backends"
other_backends = ground (arith, eq_iff "models" "backends")

other_experiences : ◌≢◌ {A = String} "models" "experiences"
other_experiences = ground (arith, eq_iff "models" "experiences")

module _ (h : Host) where
  unchanged-again :
      (model : Fields)
      → with_capabilities h model ≡ model
      → with_capabilities h (with_capabilities h model) ≡ with_capabilities h model
  unchanged-again model same = ap (with_capabilities h) same

  with_capabilities-again :
      (model : Fields) → with_capabilities h (with_capabilities h model) ≡ with_capabilities h model
  unfolding with_capabilities
  with_capabilities-again model = by-lookup (get_field "capabilities" model) refl
    where
      by-lookup :
          (o : Option Value)
          → get_field "capabilities" model ≡ o
          → with_capabilities h (with_capabilities h model) ≡ with_capabilities h model
      by-lookup (some (arr items)) at =
          let new = obj (capability_dict h items end) in
          let once : with_capabilities h model ≡ put_field "capabilities" new model =
            rw (at, with_capabilities) refl in
          rw once (rw (get-put_same "capabilities" new model, with_capabilities) refl)
      by-lookup none at = unchanged-again model (rw (at, with_capabilities) refl)
      by-lookup (some null) at = unchanged-again model (rw (at, with_capabilities) refl)
      by-lookup (some (boolean _)) at = unchanged-again model (rw (at, with_capabilities) refl)
      by-lookup (some (int _)) at = unchanged-again model (rw (at, with_capabilities) refl)
      by-lookup (some (float _)) at = unchanged-again model (rw (at, with_capabilities) refl)
      by-lookup (some (str _)) at = unchanged-again model (rw (at, with_capabilities) refl)
      by-lookup (some (obj _)) at = unchanged-again model (rw (at, with_capabilities) refl)

  validate_model-again :
      (backends model : Fields)
      → validate_model h backends (with_capabilities h model) ≡ validate_model h backends model
  unfolding validate_model
  validate_model-again backends model =
      rw
        (
          with_capabilities-again model,
          with_capabilities-other h "backend" model other_backend,
          with_capabilities-other h "artifact" model other_artifact,
        )
        refl

  validate_models-again :
      (backends d e : Fields)
      → AreChecked h d e
      → validate_models h backends e ≡ validate_models h backends d
  unfolding validate_models
  validate_models-again backends _ _ both_end = refl
  validate_models-again backends _ _ (both_field k {v = v} {d = d} {e = e} (inl same) rest) =
      rw (validate_models-again backends d e rest, same) refl
  validate_models-again backends _ _ (both_field k {d = d} {e = e} (inr (m, is_v, is_w)) rest) =
      rw (validate_models-again backends d e rest, is_v, is_w, validate_model-again backends m) refl

  AreChecked-keys :
      (k : String) (d e : Fields)
      → AreChecked h d e
      → is_some (get_field k e) ≡ is_some (get_field k d)
  unfolding get_field
  AreChecked-keys k _ _ both_end = refl
  AreChecked-keys k _ _ (both_field j {d = d} {e = e} first rest) = elim (Bool-cases (j == k)) [
    | inl same ↦ rw same refl
    | inr other ↦ rw other (AreChecked-keys k d e rest)
  ]

  is_key_of-again : (v : Value) (d e : Fields) → AreChecked h d e → is_key_of v e ≡ is_key_of v d
  is_key_of-again (str s) d e rel = ap ok (AreChecked-keys s d e rel)
  is_key_of-again null d e rel = refl
  is_key_of-again (boolean b) d e rel = refl
  is_key_of-again (int n) d e rel = refl
  is_key_of-again (float x) d e rel = refl
  is_key_of-again (arr xs) d e rel = refl
  is_key_of-again (obj fs) d e rel = refl

  check_experience-again :
      (v : Value) (d e : Fields) → AreChecked h d e → check_experience e v ≡ check_experience d v
  check_experience-again (obj x) d e rel = rw (is_key_of-again (get_or "model" null x) d e rel) refl
  check_experience-again null d e rel = refl
  check_experience-again (boolean b) d e rel = refl
  check_experience-again (int n) d e rel = refl
  check_experience-again (float x) d e rel = refl
  check_experience-again (str s) d e rel = refl
  check_experience-again (arr xs) d e rel = refl

  validate_experiences-again :
      (experiences d e : Fields)
      → AreChecked h d e
      → validate_experiences e experiences ≡ validate_experiences d experiences
  unfolding validate_experiences
  validate_experiences-again end d e rel = refl
  validate_experiences-again (field k v rest) d e rel =
      rw (check_experience-again v d e rel, validate_experiences-again rest d e rel) refl

  with_models-put :
      (normal d e catalog : Fields)
      → get_field "models" catalog ≡ some (obj d)
      → with_models normal (put_field "models" (obj e) catalog) ≡ with_models normal catalog
  with_models-put normal d e catalog at =
      rw (get-put_same "models" (obj e) catalog, at)
        (put-put_same "models" (obj e) (obj normal) catalog)

  sections-again :
      (catalog d e backends experiences : Fields)
      → get_field "models" catalog ≡ some (obj d)
      → AreChecked h d e
      → validate_sections h (put_field "models" (obj e) catalog) backends e experiences
        ≡ validate_sections h catalog backends d experiences
  unfolding validate_sections
  sections-again catalog d e backends experiences at rel =
      rw (validate_models-again backends d e rel, validate_experiences-again experiences d e rel)
        (λ i. and_then (validate_backends backends) λ _.
          and_then (validate_models h backends d) λ normal.
            and_then (validate_experiences d experiences)
              λ _. ok (with_models-put normal d e catalog at i))

  -- The check, by what it looks up.
  abbrev check_of :
      Option Value → Option Value → Option Value → Fields → Fields → Result Failure Fields
  check_of version backends experiences models catalog =
      and_then
        (require (equals_number 2 (case_option version null (λ v. v)))
          "Catalog must declare version: 2")
        λ _. and_then (section_mapping (case_option backends (obj end) (λ v. v))) λ bs.
          and_then (section_mapping (case_option experiences (obj end) (λ v. v)))
            λ es. validate_sections h catalog bs models es

  by-lookups :
      (catalog models : Fields) {version backends experiences : Option Value}
      → get_field "version" catalog ≡ version
      → get_field "backends" catalog ≡ backends
      → get_field "experiences" catalog ≡ experiences
      → get_field "models" catalog ≡ some (obj models)
      → validate_catalog h catalog ≡ check_of version backends experiences models catalog
  unfolding validate_catalog
  by-lookups catalog models v b e m = λ i.
      and_then
        (require (equals_number 2 (case_option (v i) null (λ w. w)))
          "Catalog must declare version: 2")
        λ _. and_then (section_mapping (case_option (b i) (obj end) (λ w. w))) λ bs.
          and_then (section_mapping (case_option (m i) (obj end) (λ w. w))) λ ms.
            and_then (section_mapping (case_option (e i) (obj end) (λ w. w)))
              λ es. validate_sections h catalog bs ms es

  -- A catalog with models that have been through the check is checked like the one before.
  pub validate_catalog-again :
      (catalog d e : Fields)
      → get_field "models" catalog ≡ some (obj d)
      → AreChecked h d e
      → validate_catalog h (put_field "models" (obj e) catalog) ≡ validate_catalog h catalog
  validate_catalog-again catalog d e at rel =
      by-lookups (put_field "models" (obj e) catalog) e
        (get-put_other "models" "version" (obj e) catalog other_version)
        (get-put_other "models" "backends" (obj e) catalog other_backends)
        (get-put_other "models" "experiences" (obj e) catalog other_experiences)
        (get-put_same "models" (obj e) catalog)
      ∙ (λ i.
          and_then
            (require (equals_number 2 (get_or "version" null catalog))
              "Catalog must declare version: 2")
            λ _. and_then (section_of "backends" catalog) λ backends.
              and_then (section_of "experiences" catalog)
                λ experiences. sections-again catalog d e backends experiences at rel i)
      ∙ sym (by-lookups catalog d refl refl refl at)
