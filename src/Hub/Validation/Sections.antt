-- ===== src/Hub/Validation/Sections.antt =====
-- The sections of a catalog that ops/hubctl.py has checked.
use agent_ui.Prelude.{
  String, true, ◌≡◌, ◌≢◌, refl, arith, eq_iff, string_eq, Option-cases, inl, inr, sym, ◌∙◌, ap,
  subst, ok,
}
use agent_ui.Prelude.Bind.{and_then-Ran, ok-injective}
use agent_ui.Prelude.Json.{Value, Fields, null, obj, end, get_field, get-put_same, get-put_other}
use agent_ui.Host.{Host}
use agent_ui.Hub.Documents.{get_or, require, equals_number}
use agent_ui.Hub.Validation.{
  validate_backends, validate_models, validate_experiences, validate_sections, validate_catalog,
  section_of, section_mapping, with_models,
}
use agent_ui.Hub.Validation.Facts.{
  EachValue, IsServable, require-holds, section-IsMapping, validate_models-IsServable,
}

-- The sections of a catalog that the check accepted.
pub record CheckedCatalog (checked : Fields) : Type 0 where
  pub backends : Fields
  pub models : Fields
  pub experiences : Fields
  pub has_backends : section_of "backends" checked ≡ ok backends
  pub has_models : get_or "models" (obj end) checked ≡ obj models
  pub has_experiences : section_of "experiences" checked ≡ ok experiences
  pub version : equals_number 2 (get_or "version" null checked) ≡ true
  pub servable : EachValue (IsServable backends) models

pub with_models-other :
    (k : String) (models catalog : Fields)
    → "models" ≢ k
    → get_field k (with_models models catalog) ≡ get_field k catalog
with_models-other k models catalog other = elim (Option-cases (get_field "models" catalog)) [
  | inl absent ↦ rw absent refl
  | inr (v, there) ↦ rw there (get-put_other "models" k (obj models) catalog other)
]

other_backends : ◌≢◌ {A = String} "models" "backends"
other_backends = ground (arith, eq_iff "models" "backends")

other_experiences : ◌≢◌ {A = String} "models" "experiences"
other_experiences = ground (arith, eq_iff "models" "experiences")

other_version : ◌≢◌ {A = String} "models" "version"
other_version = ground (arith, eq_iff "models" "version")

moved :
    {A : Type 0} (k : String) (models catalog checked : Fields) (v : Value)
    → with_models models catalog ≡ checked
    → "models" ≢ k
    → (f : Value → A) → f (get_or k v checked) ≡ f (get_or k v catalog)
moved k models catalog checked v same other f =
    let there : get_field k checked ≡ get_field k catalog =
      ap (get_field k) (sym same) ∙ with_models-other k models catalog other in
    rw there refl

models_there :
    (h : Host) (backends models normal catalog : Fields)
    → section_of "models" catalog ≡ ok models
    → validate_models h backends models ≡ ok normal
    → get_or "models" (obj end) (with_models normal catalog) ≡ obj normal
unfolding validate_models
models_there h backends models normal catalog section run =
    elim (Option-cases (get_field "models" catalog)) [
      | inl absent ↦
          let is_end = section-IsMapping (get_or "models" (obj end) catalog) models section in
          let none_there : end ≡ models = ground (arith, rw absent at is_end) in
          let none_run =
            subst (λ m. validate_models h backends m ≡ ok normal) (sym none_there) run in
          rw (absent, absent) (ap obj (ok-injective end normal none_run))
      | inr (v, there) ↦ rw (there, get-put_same "models" (obj normal) catalog) refl
    ]

pub validate-Checked :
    (h : Host) (catalog checked : Fields)
    → validate_catalog h catalog ≡ ok checked
    → CheckedCatalog checked
unfolding validate_catalog validate_sections validate_models
validate-Checked h catalog checked run =
    let (_, version, at_backends) =
      and_then-Ran (require (equals_number 2 (get_or "version" null catalog)) _) _ checked run in
    let (backends, has_backends, at_models) =
      and_then-Ran (section_of "backends" catalog) _ checked at_backends in
    let (models, has_models, at_experiences) =
      and_then-Ran (section_of "models" catalog) _ checked at_models in
    let (experiences, has_experiences, at_valid) =
      and_then-Ran (section_of "experiences" catalog) _ checked at_experiences in
    let (_, valid, at_normal) = and_then-Ran (validate_backends backends) _ checked at_valid in
    let (normal, run_models, at_pins) =
      and_then-Ran (validate_models h backends models) _ checked at_normal in
    let (_, _, last) = and_then-Ran (validate_experiences models experiences) _ checked at_pins in
    let same = ok-injective (with_models normal catalog) checked last in
    record {
      backends = backends;
      models = normal;
      experiences = experiences;
      has_backends =
          moved "backends" normal catalog checked (obj end) same other_backends section_mapping
          ∙ has_backends;
      has_models =
          ap (get_or "models" (obj end)) (sym same)
          ∙ models_there h backends models normal catalog has_models run_models;
      has_experiences =
          moved "experiences" normal catalog checked (obj end) same other_experiences
            section_mapping
          ∙ has_experiences;
      version =
          moved "version" normal catalog checked null same other_version (equals_number 2)
          ∙ require-holds _ _ version;
      servable = validate_models-IsServable h backends models normal valid run_models;
    }
