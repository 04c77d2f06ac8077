-- ===== src/Hub/Render/Total.antt =====
-- The renderers of ops/hubctl.py on a catalog that has been checked: what they look up is there.
use agent_ui.Prelude.{
  String, true, not, ◌||◌, List, [], ◌∷◌, contains, some, ◌≡◌, refl, arith, eq_iff, string_eq,
  Option-cases, inl, inr, sym, ap, subst, ok,
}
use agent_ui.Prelude.Bind.{
  and_then-Ran, Returns, Returns-ok, Returns-of, Returns-if, Returns-and_then,
}
use agent_ui.Prelude.Json.{
  Value, Fields, null, boolean, int, float, str, arr, obj, end, field, get_field, truthy,
}
use agent_ui.Host.{Host}
use agent_ui.Hub.Documents.{get_or, require, is_one_of}
use agent_ui.Hub.Validation.{
  check_artifact, artifact_kinds, needs, artifact_kind, is_text, section_of, is_kind,
}
use agent_ui.Hub.Validation.Facts.{IsServable, EachValue, require-holds, section-IsMapping}
use agent_ui.Hub.Artifacts.{artifact_for, required_item}
use agent_ui.Hub.Render.{
  index, backend_for, is_enabled, Override, add_mount, compose_model, compose_models,
}

pub is_text-str : (s : String) (v : Value) → is_text s v ≡ true → v ≡ str s
is_text-str s (str t) h = ap str (ground (arith, eq_iff t s))
is_text-str s null h = absurd (ground (arith, h))
is_text-str s (boolean _) h = absurd (ground (arith, h))
is_text-str s (int _) h = absurd (ground (arith, h))
is_text-str s (float _) h = absurd (ground (arith, h))
is_text-str s (arr _) h = absurd (ground (arith, h))
is_text-str s (obj _) h = absurd (ground (arith, h))

truthy-there :
    (k : String) (d : Fields)
    → truthy (get_or k null d) ≡ true
    → (v : Value) × (get_field k d ≡ some v)
truthy-there k d h = elim (Option-cases (get_field k d)) [
  | inl absent ↦ absurd (ground (arith, rw absent at h))
  | inr there ↦ there
]

needs-there :
    (kinds : List String) (name k : String) (artifact : Fields)
    → needs kinds name artifact ≡ ok tt
    → artifact_kind artifact ≡ str k
    → contains k kinds ≡ true
    → (v : Value) × (required_item name artifact ≡ ok v)
unfolding needs is_one_of
needs-there kinds name k artifact h kind member =
    let held : require (truthy (get_or name null artifact)) "Model artifact requires a field"
        ≡ ok tt =
      rw (kind, member) at h in
    let (v, there) = truthy-there name artifact (require-holds _ _ held) in (v, rw there refl)

-- The parts of the check of an artifact.
checked-needs :
    (artifact : Fields)
    → check_artifact artifact ≡ ok tt
    → (needs ("host_path" ∷ "container_path" ∷ "hostPath" ∷ []) "path" artifact ≡ ok tt)
      × (needs ("docker_volume" ∷ []) "volume" artifact ≡ ok tt)
      × (needs ("pvc" ∷ []) "claim_name" artifact ≡ ok tt)
unfolding check_artifact
checked-needs artifact h =
    let (known, _, more) =
      and_then-Ran (is_one_of artifact_kinds (artifact_kind artifact)) _ tt h in
    let (_, _, at_paths) =
      and_then-Ran (require known "Model has unsupported artifact kind") _ tt more in
    let (_, paths, at_volumes) =
      and_then-Ran (needs ("host_path" ∷ "container_path" ∷ "hostPath" ∷ []) "path" artifact) _ tt
        at_paths in
    let (_, volumes, claims) =
      and_then-Ran (needs ("docker_volume" ∷ []) "volume" artifact) _ tt at_volumes in
    (paths, volumes, claims)

-- An artifact that was checked has the path or the volume that its kind needs.
pub checked-path :
    (artifact : Fields) (k : String)
    → check_artifact artifact ≡ ok tt
    → artifact_kind artifact ≡ str k
    → contains k ("host_path" ∷ "container_path" ∷ "hostPath" ∷ []) ≡ true
    → (v : Value) × (required_item "path" artifact ≡ ok v)
checked-path artifact k h kind member =
    needs-there _ "path" k artifact (checked-needs artifact h).0 kind member

pub checked-volume :
    (artifact : Fields)
    → check_artifact artifact ≡ ok tt
    → artifact_kind artifact ≡ str "docker_volume"
    → (v : Value) × (required_item "volume" artifact ≡ ok v)
unfolding contains
checked-volume artifact h kind =
    needs-there ("docker_volume" ∷ []) "volume" "docker_volume" artifact
      (checked-needs artifact h).1 kind refl

section_there :
    (catalog backends : Fields) (name : String) (backend : Fields)
    → section_of "backends" catalog ≡ ok backends
    → get_field name backends ≡ some (obj backend)
    → required_item "backends" catalog ≡ ok (obj backends)
unfolding get_field
section_there catalog backends name backend section found =
    let mapping_there = section-IsMapping (get_or "backends" (obj end) catalog) backends section in
    elim (Option-cases (get_field "backends" catalog)) [
      | inl absent ↦
          let none_there : end ≡ backends = ground (arith, rw absent at mapping_there) in
          absurd (
            ground
              (arith, subst (λ d. get_field name d ≡ some (obj backend)) (sym none_there) found))
      | inr (v, there) ↦ rw (there, rw there at mapping_there) refl
    ]

module _ (h : Host) where
  add_mount-Returns :
      (id : String) (artifact : Fields) (st : Override)
      → check_artifact artifact ≡ ok tt
      → Returns (add_mount h id artifact st)
  unfolding add_mount contains
  add_mount-Returns id artifact st checked =
      Returns-if (is_text "host_path" (artifact_kind artifact)) _ _
        (λ host.
          let (v, there) = checked-path artifact "host_path" checked (is_text-str _ _ host) refl in
          Returns-and_then (required_item "path" artifact) _ (Returns-of _ v there)
            λ w _. Returns-ok _)
        λ _.
          Returns-if (is_text "docker_volume" (artifact_kind artifact)) _ _
            (λ volume.
              let (v, there) = checked-volume artifact checked (is_text-str _ _ volume) in
              Returns-and_then (required_item "volume" artifact) _ (Returns-of _ v there)
                λ w _. Returns-ok _)
            λ _. Returns-ok st

-- The backend of a model is found in a catalog.
pub backend_for-found :
    (catalog backends : Fields) (v : Value) (s : IsServable backends v)
    → section_of "backends" catalog ≡ ok backends
    → backend_for catalog s.model ≡ ok s.backend
unfolding backend_for index
backend_for-found catalog backends v s section =
    rw (section_there catalog backends s.name s.backend section s.found, s.named, s.found) refl

module _ (h : Host) (catalog backends : Fields) where
  compose_model-Returns :
      (id : String) (v : Value) (st : Override)
      → section_of "backends" catalog ≡ ok backends
      → IsServable backends v
      → Returns (compose_model h catalog id v st)
  unfolding compose_model artifact_for
  compose_model-Returns id v st section s =
      rw (s.is_model, backend_for-found catalog backends v s section, s.is_artifact)
        (Returns-if (not (is_enabled s.model)) _ _ (λ _. Returns-ok st)
          λ _.
            Returns-if (not (is_enabled s.backend) || not (is_kind "llama.cpp" s.backend)) _ _
              (λ _. Returns-ok st)
              λ _. add_mount-Returns h id s.artifact (record st { required = true }) s.checked)

  pub compose_models-Returns :
      (models : Fields) (st : Override)
      → section_of "backends" catalog ≡ ok backends
      → EachValue (IsServable backends) models
      → Returns (compose_models h catalog models st)
  unfolding compose_models
  compose_models-Returns end st section each = Returns-ok st
  compose_models-Returns (field id v rest) st section each =
      Returns-and_then (compose_model h catalog id v st) _
        (compose_model-Returns id v st section each.0)
        λ next _. compose_models-Returns rest next section each.1
