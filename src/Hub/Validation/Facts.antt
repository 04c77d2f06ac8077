-- ===== src/Hub/Validation/Facts.antt =====
-- What the catalog check of ops/hubctl.py has made sure of, model by model.
use agent_ui.Prelude.{
  String, Bool, true, false, Option, none, some, ◌≡◌, ◌≢◌, refl, arith, eq_iff, ◌==◌, string_eq,
  Option-cases, Bool-cases, inl, inr, sym, ◌∙◌, ap, subst, ok, is_some,
}
use agent_ui.Prelude.Bind.{and_then-Ran}
use agent_ui.Prelude.Json.{
  Value, Fields, null, boolean, int, float, str, arr, obj, end, field, get_field, put_field,
  get-put_other,
}
use agent_ui.Host.{Host}
use agent_ui.Hub.Documents.{get_or, require}
use agent_ui.Hub.Validation.{
  validate_id, check_backend, validate_backends, with_capabilities, capability_dict,
  check_capabilities, artifact_value, artifact_mapping, check_artifact, require_local, backend_of,
  is_key_of, validate_model, model_mapping, validate_models, section_mapping,
}

-- A predicate on every value of a mapping.
abbrev pub EachValue : (Value → Type 0) → Fields → Type 0
EachValue P end = Unit
EachValue P (field k v fs) = P v × EachValue P fs

-- A model with its backend and its artifact.
pub record IsServable (backends : Fields) (v : Value) : Type 0 where
  pub model : Fields
  pub is_model : v ≡ obj model
  pub name : String
  pub named : get_field "backend" model ≡ some (str name)
  pub backend : Fields
  pub found : get_field name backends ≡ some (obj backend)
  pub artifact : Fields
  pub is_artifact : artifact_value model ≡ obj artifact
  pub checked : check_artifact artifact ≡ ok tt
  pub local : require_local (some (obj backend)) artifact ≡ ok tt

pub require-holds : (b : Bool) (message : String) → require b message ≡ ok tt → b ≡ true
require-holds true message h = refl
require-holds false message h = absurd (ground (arith, h))

check_backend-IsMapping : (v : Value) → check_backend v ≡ ok tt → (d : Fields) × (v ≡ obj d)
check_backend-IsMapping (obj d) h = (d, refl)
check_backend-IsMapping null h = absurd (ground (arith, h))
check_backend-IsMapping (boolean _) h = absurd (ground (arith, h))
check_backend-IsMapping (int _) h = absurd (ground (arith, h))
check_backend-IsMapping (float _) h = absurd (ground (arith, h))
check_backend-IsMapping (str _) h = absurd (ground (arith, h))
check_backend-IsMapping (arr _) h = absurd (ground (arith, h))

model_mapping-IsMapping : (v : Value) {d : Fields} → model_mapping v ≡ ok d → v ≡ obj d
model_mapping-IsMapping (obj d) h = ground (arith, h)
model_mapping-IsMapping null h = absurd (ground (arith, h))
model_mapping-IsMapping (boolean _) h = absurd (ground (arith, h))
model_mapping-IsMapping (int _) h = absurd (ground (arith, h))
model_mapping-IsMapping (float _) h = absurd (ground (arith, h))
model_mapping-IsMapping (str _) h = absurd (ground (arith, h))
model_mapping-IsMapping (arr _) h = absurd (ground (arith, h))

artifact_mapping-IsMapping : (v : Value) {d : Fields} → artifact_mapping v ≡ ok d → v ≡ obj d
artifact_mapping-IsMapping (obj d) h = ground (arith, h)
artifact_mapping-IsMapping null h = absurd (ground (arith, h))
artifact_mapping-IsMapping (boolean _) h = absurd (ground (arith, h))
artifact_mapping-IsMapping (int _) h = absurd (ground (arith, h))
artifact_mapping-IsMapping (float _) h = absurd (ground (arith, h))
artifact_mapping-IsMapping (str _) h = absurd (ground (arith, h))
artifact_mapping-IsMapping (arr _) h = absurd (ground (arith, h))

pub section-IsMapping : (v : Value) (d : Fields) → section_mapping v ≡ ok d → v ≡ obj d
section-IsMapping (obj e) d h = ground (arith, h)
section-IsMapping null d h = absurd (ground (arith, h))
section-IsMapping (boolean _) d h = absurd (ground (arith, h))
section-IsMapping (int _) d h = absurd (ground (arith, h))
section-IsMapping (float _) d h = absurd (ground (arith, h))
section-IsMapping (str _) d h = absurd (ground (arith, h))
section-IsMapping (arr _) d h = absurd (ground (arith, h))

backends-IsMapping :
    (backends : Fields) (k : String) (v : Value)
    → validate_backends backends ≡ ok tt
    → get_field k backends ≡ some v
    → (backend : Fields) × (v ≡ obj backend)
unfolding validate_backends get_field
backends-IsMapping end k v h at = absurd (ground (arith, at))
backends-IsMapping (field j w fs) k v h at =
    let (_, _, more) = and_then-Ran (validate_id j) _ tt h in
    let (_, checked, rest) = and_then-Ran (check_backend w) _ tt more in
    elim (Bool-cases (j == k)) [
      | inl same ↦
          let is : w ≡ v = ground (arith, rw same at at) in
          check_backend-IsMapping v (subst (λ x. check_backend x ≡ ok tt) is checked)
      | inr other ↦ backends-IsMapping fs k v rest (rw other at at)
    ]

-- The capabilities are all that the check replaces.
pub with_capabilities-other :
    (h : Host) (k : String) (model : Fields)
    → "capabilities" ≢ k
    → get_field k (with_capabilities h model) ≡ get_field k model
unfolding with_capabilities
with_capabilities-other h k model other = by-lookup (get_field "capabilities" model)
  where
    by-lookup :
        (o : Option Value)
        → get_field k elim o [
          | some (arr items) ↦ put_field "capabilities" (obj (capability_dict h items end)) model
          | _ ↦ model
        ]
          ≡ get_field k model
    by-lookup (some (arr items)) =
        get-put_other "capabilities" k (obj (capability_dict h items end)) model other
    by-lookup none = refl
    by-lookup (some null) = refl
    by-lookup (some (boolean b)) = refl
    by-lookup (some (int n)) = refl
    by-lookup (some (float x)) = refl
    by-lookup (some (str s)) = refl
    by-lookup (some (obj fs)) = refl

known-backend :
    (v : Value) (backends : Fields)
    → is_key_of v backends ≡ ok true
    → (name : String) × (v ≡ str name) × (is_some (get_field name backends) ≡ true)
known-backend (str s) backends h = (s, refl, ground (arith, h))
known-backend null backends h = absurd (ground (arith, h))
known-backend (boolean b) backends h = absurd (ground (arith, h))
known-backend (int n) backends h = absurd (ground (arith, h))
known-backend (float x) backends h = absurd (ground (arith, h))
known-backend (arr xs) backends h = absurd (ground (arith, h))
known-backend (obj fs) backends h = absurd (ground (arith, h))

get_or-text :
    (k : String) (d : Fields) {s : String} → get_or k null d ≡ str s → get_field k d ≡ some (str s)
get_or-text k d h = elim (Option-cases (get_field k d)) [
  | inl absent ↦ absurd (ground (arith, rw absent at h))
  | inr (v, there) ↦ there ∙ ap some (rw there at h)
]

present-backend :
    (name : String) (backends : Fields)
    → validate_backends backends ≡ ok tt
    → is_some (get_field name backends) ≡ true
    → (backend : Fields) × (get_field name backends ≡ some (obj backend))
present-backend name backends valid there = elim (Option-cases (get_field name backends)) [
  | inl absent ↦ absurd (ground (arith, rw absent at there))
  | inr (v, at) ↦
      let (backend, is) = backends-IsMapping backends name v valid at in (backend, at ∙ ap some is)
]

artifact_value-kept :
    (d e : Fields)
    → get_field "artifact" d ≡ get_field "artifact" e
    → artifact_value d ≡ artifact_value e
artifact_value-kept d e same = rw same refl

other_backend : ◌≢◌ {A = String} "capabilities" "backend"
other_backend = ground (arith, eq_iff "capabilities" "backend")

other_artifact : ◌≢◌ {A = String} "capabilities" "artifact"
other_artifact = ground (arith, eq_iff "capabilities" "artifact")

-- What is known once a model has passed.
validate_model-IsServable :
    (h : Host) (backends model normal : Fields)
    → validate_backends backends ≡ ok tt
    → validate_model h backends model ≡ ok normal
    → IsServable backends (obj normal)
unfolding validate_model
validate_model-IsServable h backends model normal valid run =
    let b = get_or "backend" null model in
    let (known, is_known, at_known) = and_then-Ran (is_key_of b backends) _ normal run in
    let (_, required, at_named) = and_then-Ran (require known _) _ normal at_known in
    let known_true = require-holds known _ required in
    let (name, is_name, there) = known-backend b backends (is_known ∙ ap ok known_true) in
    let (_, _, at_capable) =
      and_then-Ran
        (check_capabilities (get_or "capabilities" (obj end) (with_capabilities h model))) _ normal
        at_named in
    let (artifact, is_artifact, at_artifact) =
      and_then-Ran (artifact_mapping (artifact_value model)) _ normal at_capable in
    let (_, checked, at_checked) = and_then-Ran (check_artifact artifact) _ normal at_artifact in
    let (_, local, last) =
      and_then-Ran (require_local (backend_of b backends) artifact) _ normal at_checked in
    let (backend, found) = present-backend name backends valid there in
    let same : with_capabilities h model ≡ normal = ground (arith, last) in
    let kept : (k : String) → "capabilities" ≢ k → get_field k normal ≡ get_field k model =
      λ k other. ap (get_field k) (sym same) ∙ with_capabilities-other h k model other in
    let at_backend : backend_of b backends ≡ some (obj backend) =
      ap (λ v. backend_of v backends) is_name ∙ found in
    record {
      model = normal;
      is_model = refl;
      name = name;
      named = kept "backend" other_backend ∙ get_or-text "backend" model is_name;
      backend = backend;
      found = found;
      artifact = artifact;
      is_artifact =
          artifact_value-kept normal model (kept "artifact" other_artifact)
          ∙ artifact_mapping-IsMapping (artifact_value model) is_artifact;
      checked = checked;
      local = ap (λ o. require_local o artifact) (sym at_backend) ∙ local;
    }

pub validate_models-IsServable :
    (h : Host) (backends models normal : Fields)
    → validate_backends backends ≡ ok tt
    → validate_models h backends models ≡ ok normal
    → EachValue (IsServable backends) normal
unfolding validate_models
validate_models-IsServable h backends end normal valid run =
    let done : end ≡ normal = ground (arith, run) in subst (EachValue (IsServable backends)) done tt
validate_models-IsServable h backends (field id v rest) normal valid run =
    let (_, _, at_model) = and_then-Ran (validate_id id) _ normal run in
    let (model, _, at_valid) = and_then-Ran (model_mapping v) _ normal at_model in
    let (first, checked, at_rest) =
      and_then-Ran (validate_model h backends model) _ normal at_valid in
    let (others, more, last) = and_then-Ran (validate_models h backends rest) _ normal at_rest in
    let done : field id (obj first) others ≡ normal = ground (arith, last) in
    subst (EachValue (IsServable backends)) done (
      validate_model-IsServable h backends model first valid checked,
      validate_models-IsServable h backends rest others valid more,
    )
