-- ===== src/Hub/Validation.antt =====
-- `validate_catalog` of ops/hubctl.py. It replaces a list of capabilities by a mapping in the
-- catalog it is given, so a validated catalog is the result.
pub mod Facts
pub mod Sections
use agent_ui.Prelude.{
  ℕ, String, Bool, true, false, ◌&&◌, ◌||◌, not, List, [], ◌∷◌, Option, none, some, Result, ok,
  raise, and_then, case_option, if◌then◌else◌, length, leb, nat_beq, is_some, ◌==◌, string_eq,
}
use agent_ui.Prelude.Text.{codes}
use agent_ui.Prelude.Json.{
  Value, Fields, Items, null, boolean, str, arr, obj, nil, cons, end, field, get_field, put_field,
  truthy,
}
use agent_ui.Host.{Host}
use agent_ui.Hub.Documents.{
  Failure, hub_error, crash, Checked, get_or, equals_number, is_one_of, require,
}

abbrev is_lower : ℕ → Bool
is_lower c = leb b'a' c && leb c b'z'

abbrev is_digit : ℕ → Bool
is_digit c = leb b'0' c && leb c b'9'

abbrev is_id_char : ℕ → Bool
is_id_char c = is_lower c || is_digit c || nat_beq c b'.' || nat_beq c b'_' || nat_beq c b'-'

unfoldable pub all_of : (ℕ → Bool) → List ℕ → Bool
all_of p [] = true
all_of p (c ∷ cs) = p c && all_of p cs

-- A character of a class, then at most 63 of letters, digits and `._-`.
unfoldable pub is_name : (ℕ → Bool) → List ℕ → Bool
unfolding all_of
is_name first [] = false
is_name first (c ∷ cs) = first c && all_of is_id_char cs && leb (length cs) 63

-- `RESOURCE_ID_RE.fullmatch(s)`
abbrev pub is_resource_id : String → Bool
is_resource_id s = is_name (λ c. is_lower c || is_digit c) (codes s)

-- `CAPABILITY_RE.fullmatch(s)`
abbrev pub is_capability : String → Bool
is_capability s = is_name is_lower (codes s)

unfoldable pub validate_id : String → Checked
unfolding is_name
validate_id s = require (is_resource_id s) "Invalid id"

-- `v in d`, for a dictionary with texts for keys
abbrev pub is_key_of : Value → Fields → Result Failure Bool
is_key_of (str s) d = ok (is_some (get_field s d))
is_key_of (arr _) d = raise (crash "TypeError")
is_key_of (obj _) d = raise (crash "TypeError")
is_key_of _ d = ok false

abbrev pub check_backend : Value → Checked
check_backend (obj backend) =
    and_then
      (is_one_of ("llama.cpp" ∷ "openai-compatible" ∷ "comfyui" ∷ []) (get_or "kind" null backend))
      λ known. require known "Backend has unsupported kind"
check_backend _ = raise (hub_error "Backend must be a mapping")

unfoldable pub validate_backends : Fields → Checked
unfolding validate_id is_one_of get_field
validate_backends end = ok tt
validate_backends (field id backend rest) =
    and_then (validate_id id) λ _. and_then (check_backend backend) λ _. validate_backends rest

-- `str(v)`
abbrev pub text_of : Host → Value → String
text_of h (str s) = s
text_of h v = h.value_text v

-- `{str(item): {} for item in items}`
unfoldable pub capability_dict : Host → Items → Fields → Fields
unfolding put_field
capability_dict h nil d = d
capability_dict h (cons v vs) d = capability_dict h vs (put_field (text_of h v) (obj end) d)

-- The model once its capabilities are no list.
unfoldable pub with_capabilities : Host → Fields → Fields
unfolding get_field put_field capability_dict
with_capabilities h model = elim (get_field "capabilities" model) [
  | some (arr items) ↦ put_field "capabilities" (obj (capability_dict h items end)) model
  | _ ↦ model
]

unfoldable pub capability_names : Fields → Checked
unfolding is_name
capability_names end = ok tt
capability_names (field name _ rest) =
    and_then (require (is_capability name) "Model has invalid capability")
      λ _. capability_names rest

abbrev pub check_capabilities : Value → Checked
check_capabilities (obj capabilities) = capability_names capabilities
check_capabilities _ = raise (hub_error "Model capabilities must be a mapping or list")

abbrev pub no_artifact : Fields
no_artifact = field "kind" (str "none") end

-- `model.get("artifact") or {"kind": "none"}`
abbrev pub artifact_value : Fields → Value
artifact_value model =
    let v = get_or "artifact" null model in if truthy v then v else obj no_artifact

abbrev pub artifact_mapping : Value → Result Failure Fields
artifact_mapping (obj artifact) = ok artifact
artifact_mapping _ = raise (hub_error "Model artifact must be a mapping")

abbrev pub artifact_kind : Fields → Value
artifact_kind artifact = get_or "kind" (str "none") artifact

-- A field that an artifact of some kinds needs.
unfoldable pub needs : List String → String → Fields → Checked
unfolding is_one_of get_field
needs kinds name artifact = and_then (is_one_of kinds (artifact_kind artifact)) λ affected.
    require (not affected || truthy (get_or name null artifact)) "Model artifact requires a field"

abbrev pub artifact_kinds : List String
artifact_kinds =
    "managed" ∷ "host_path" ∷ "docker_volume" ∷ "container_path" ∷ "pvc" ∷ "hostPath" ∷ "none" ∷ []

unfoldable pub check_artifact : Fields → Checked
unfolding needs is_one_of get_field
check_artifact artifact = and_then (is_one_of artifact_kinds (artifact_kind artifact)) λ known.
    and_then (require known "Model has unsupported artifact kind") λ _.
      and_then (needs ("host_path" ∷ "container_path" ∷ "hostPath" ∷ []) "path" artifact) λ _.
        and_then (needs ("docker_volume" ∷ []) "volume" artifact)
          λ _. needs ("pvc" ∷ []) "claim_name" artifact

-- `v == s`
abbrev pub is_text : String → Value → Bool
is_text s (str t) = t == s
is_text s _ = false

abbrev pub is_kind : String → Fields → Bool
is_kind s d = is_text s (get_or "kind" null d)

abbrev require_local : Option Value → Fields → Checked
require_local (some (obj backend)) artifact =
    require (not (is_kind "llama.cpp" backend && is_text "none" (artifact_kind artifact)))
      "Local llama.cpp model requires a local artifact"
require_local none artifact = raise (crash "KeyError")
require_local (some _) artifact = raise (crash "AttributeError")

-- `backends[v]`
abbrev pub backend_of : Value → Fields → Option Value
backend_of (str s) backends = get_field s backends
backend_of _ backends = none

unfoldable pub validate_model : Host → Fields → Fields → Result Failure Fields
unfolding with_capabilities capability_names check_artifact get_field
validate_model h backends model =
    let backend = get_or "backend" null model in
    and_then (is_key_of backend backends) λ known.
      and_then (require known "Model references unknown backend") λ _.
        let normal = with_capabilities h model in
        and_then (check_capabilities (get_or "capabilities" (obj end) normal)) λ _.
          and_then (artifact_mapping (artifact_value model)) λ artifact.
            and_then (check_artifact artifact)
              λ _. and_then (require_local (backend_of backend backends) artifact) λ _. ok normal

abbrev pub model_mapping : Value → Result Failure Fields
model_mapping (obj model) = ok model
model_mapping _ = raise (hub_error "Model must be a mapping")

unfoldable pub validate_models : Host → Fields → Fields → Result Failure Fields
unfolding validate_id validate_model
validate_models h backends end = ok end
validate_models h backends (field id v rest) = and_then (validate_id id) λ _.
    and_then (model_mapping v) λ model. and_then (validate_model h backends model) λ normal.
      and_then (validate_models h backends rest) λ others. ok (field id (obj normal) others)

abbrev pub check_experience : Fields → Value → Checked
check_experience models (obj experience) =
    let pinned = get_or "model" null experience in
    and_then (if truthy pinned then is_key_of pinned models else ok true) λ known.
      and_then (require known "Experience references unknown model") λ _.
        require
          (truthy pinned
            || truthy (get_or "capability" null experience)
            || is_text "auto" (get_or "route" null experience))
          "Experience requires model, capability, or route: auto"
check_experience models _ = raise (hub_error "Experience must be a mapping")

unfoldable pub validate_experiences : Fields → Fields → Checked
unfolding validate_id get_field
validate_experiences models end = ok tt
validate_experiences models (field id experience rest) =
    and_then (validate_id id)
      λ _. and_then (check_experience models experience) λ _. validate_experiences models rest

abbrev pub section_mapping : Value → Result Failure Fields
section_mapping (obj d) = ok d
section_mapping _ = raise (hub_error "Catalog section must be a mapping")

-- `catalog.get(name, {})`, which has to be a mapping
abbrev pub section_of : String → Fields → Result Failure Fields
section_of name catalog = section_mapping (get_or name (obj end) catalog)

-- The catalog with other models; a catalog without models stays without.
abbrev pub with_models : Fields → Fields → Fields
with_models models catalog =
    if is_some (get_field "models" catalog)
    then put_field "models" (obj models) catalog
    else catalog

-- The loops over the sections.
unfoldable pub validate_sections : Host → Fields → Fields → Fields → Fields → Result Failure Fields
unfolding validate_backends validate_models validate_experiences get_field put_field
validate_sections h catalog backends models experiences = and_then (validate_backends backends) λ _.
    and_then (validate_models h backends models) λ normal.
      and_then (validate_experiences models experiences) λ _. ok (with_models normal catalog)

unfoldable pub validate_catalog : Host → Fields → Result Failure Fields
unfolding validate_sections get_field
validate_catalog h catalog =
    and_then
      (require (equals_number 2 (get_or "version" null catalog)) "Catalog must declare version: 2")
      λ _. and_then (section_of "backends" catalog) λ backends.
        and_then (section_of "models" catalog) λ models.
          and_then (section_of "experiences" catalog)
            λ experiences. validate_sections h catalog backends models experiences
