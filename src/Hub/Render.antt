-- ===== src/Hub/Render.antt =====
-- The files that ops/hubctl.py renders from a catalog: `models.ini` of the local inference server,
-- and the override of the compose file.
pub mod Total
pub mod Declared
use agent_ui.Prelude.{
  ℕ, String, Bool, true, false, ◌&&◌, ◌||◌, not, List, [], ◌∷◌, ◌++◌, Option, none, some, Result,
  ok, raise, and_then, case_option, if◌then◌else◌, nat_beq, ◌==◌, string_eq,
}
use agent_ui.Prelude.Text.{join_two, join}
use agent_ui.Prelude.Json.{
  Value, Fields, Items, null, boolean, int, str, arr, obj, nil, cons, end, field, get_field,
  put_field, truthy, pos,
}
use agent_ui.Host.{Host, lower}
use agent_ui.Hub.Documents.{Failure, hub_error, crash, get_or}
use agent_ui.Hub.Paths.{PosixPath, path, path_text, path_suffix}
use agent_ui.Hub.Validation.{artifact_kind, text_of, is_text, is_kind}
use agent_ui.Hub.Artifacts.{artifact_for, filename_of, external, required_item, resolved_model_path}

-- `v[key]`
unfoldable pub index : Value → Value → Result Failure Value
unfolding get_field
index (obj d) (str s) = required_item s d
index (obj d) (arr _) = raise (crash "TypeError")
index (obj d) (obj _) = raise (crash "TypeError")
index (obj d) _ = raise (crash "KeyError")
index _ _ = raise (crash "TypeError")

-- A value that is read like a mapping from here on.
abbrev pub mapping : Value → Result Failure Fields
mapping (obj d) = ok d
mapping _ = raise (crash "AttributeError")

-- `catalog["backends"][model["backend"]]`
unfoldable pub backend_for : Fields → Fields → Result Failure Fields
unfolding index get_field
backend_for catalog model = and_then (required_item "backends" catalog) λ backends.
    and_then (required_item "backend" model)
      λ name. and_then (index backends name) λ backend. mapping backend

-- `str.replace(".", "-")`
unfoldable pub dashed : String → String
dashed String.[] = String.[]
dashed (String.◌∷◌ c s) =
    if nat_beq (Prim.Native.Char.code c) b'.'
    then join_two "-" (dashed s)
    else String.◌∷◌ c (dashed s)

abbrev pub is_enabled : Fields → Bool
is_enabled d = truthy (get_or "enabled" (boolean true) d)

-- `ini_value`
abbrev pub ini_value : Host → Value → String
ini_value h (boolean true) = "true"
ini_value h (boolean false) = "false"
ini_value h v = text_of h v

module _ (h : Host) (fit_target : Value) where
  unfoldable pub runtime_lines : Fields → List String
  runtime_lines end = []
  runtime_lines (field key v rest) =
      join_two key (join_two " = " (ini_value h (if key == "fit-target" then fit_target else v)))
      ∷ runtime_lines rest

  -- `model.get(name) or {}`, read like a mapping
  abbrev pub mapping_or_empty : Value → Result Failure Fields
  mapping_or_empty v = if truthy v then mapping v else ok end

  abbrev upstream_model : String → Fields → String
  upstream_model id model =
      let v = get_or "upstream_model" null model in if truthy v then text_of h v else id

  -- The section of one model.
  unfoldable pub ini_section : Fields → PosixPath → String → Value → Result Failure (List String)
  unfolding backend_for resolved_model_path path_text runtime_lines get_field
  ini_section catalog models_dir id v = and_then (mapping v) λ model.
      if not (is_enabled model)
      then ok []
      else (and_then (backend_for catalog model) λ backend.
          if not (is_kind "llama.cpp" backend)
          then ok []
          else (and_then (resolved_model_path h id model models_dir) λ at.
              case_option at (ok []) λ file.
                and_then (mapping_or_empty (get_or "runtime" null model)) λ runtime. ok (
                  ""
                  ∷ join_two "[" (join_two (upstream_model id model) "]")
                  ∷ join_two "model = " (path_text file)
                  ∷ runtime_lines runtime)))

  unfoldable pub ini_sections : Fields → PosixPath → Fields → Result Failure (List String)
  unfolding ini_section
  ini_sections catalog models_dir end = ok []
  ini_sections catalog models_dir (field id v rest) =
      and_then (ini_section catalog models_dir id v)
        λ section. and_then (ini_sections catalog models_dir rest) λ others. ok (section ++ others)

  abbrev preamble : List String
  preamble =
      "version = 1"
      ∷ ""
      ∷ "[*]"
      ∷ "jinja = true"
      ∷ "fit = true"
      ∷ join_two "fit-target = " (text_of h fit_target)
      ∷ "parallel = 1"
      ∷ "load-on-startup = false"
      ∷ "stop-timeout = 180"
      ∷ "dedup-cache-models = true"
      ∷ []

  unfoldable pub render_models_ini : Fields → PosixPath → Result Failure String
  unfolding ini_sections join
  render_models_ini catalog models_dir =
      and_then (mapping (get_or "models" (obj end) catalog)) λ models.
        and_then (ini_sections catalog models_dir models)
          λ sections. ok (join_two (join "\n" (preamble ++ sections)) "\n")

-- The state of the loop of `render_compose_override`.
pub record Override : Type 0 where
  pub mounts : List Fields
  pub volumes : Fields
  pub required : Bool

module _ (h : Host) where
  abbrev pub mount : String → Value → String → Fields → Fields
  mount type source target artifact = field "type" (str type) (
      field "source" source (
        field "target" (str target)
          (field "read_only" (boolean (truthy (get_or "read_only" (boolean true) artifact))) end)))

  -- Where a path of the host is mounted.
  unfoldable pub host_target : String → Fields → Value → String
  unfolding lower path path_suffix filename_of
  host_target id artifact v =
      if lower h (path_suffix (path (text_of h v))) == ".gguf"
      then join_two (external id) (join_two "/" (filename_of h id artifact))
      else external id

  abbrev pub alias : String → String
  alias id = dashed (join_two "external-" id)

  unfoldable pub add_mount : String → Fields → Override → Result Failure Override
  unfolding host_target get_field put_field dashed
  add_mount id artifact st =
      let kind = artifact_kind artifact in
      if is_text "host_path" kind
      then (and_then (required_item "path" artifact) λ v. ok (record st {
        mounts =
            st.mounts ++ mount "bind" (str (text_of h v)) (host_target id artifact v) artifact ∷ [];
      }))
      else if is_text "docker_volume" kind
      then (and_then (required_item "volume" artifact) λ v. ok (record st {
        mounts = st.mounts ++ mount "volume" (str (alias id)) (external id) artifact ∷ [];
        volumes =
            put_field (alias id) (obj (field "external" (boolean true) (field "name" v end)))
              st.volumes;
      }))
      else ok st

  unfoldable pub compose_model : Fields → String → Value → Override → Result Failure Override
  unfolding backend_for artifact_for add_mount get_field
  compose_model catalog id v st = and_then (mapping v) λ model.
      if not (is_enabled model)
      then ok st
      else (and_then (backend_for catalog model) λ backend.
          if not (is_enabled backend) || not (is_kind "llama.cpp" backend)
          then ok st
          else (and_then (artifact_for h model)
              λ artifact. add_mount id artifact (record st { required = true })))

  unfoldable pub compose_models : Fields → Fields → Override → Result Failure Override
  unfolding compose_model
  compose_models catalog end st = ok st
  compose_models catalog (field id v rest) st =
      and_then (compose_model catalog id v st) λ next. compose_models catalog rest next

  abbrev items_of : List Fields → Items
  items_of [] = nil
  items_of (d ∷ ds) = cons (obj d) (items_of ds)

  abbrev with_volumes : List Fields → Fields → Fields
  with_volumes [] llama = llama
  with_volumes mounts llama = put_field "volumes" (arr (items_of mounts)) llama

  abbrev optional_gateway : Fields
  optional_gateway =
      field "depends_on"
        (obj (
          field "llama"
            (obj (field "condition" (str "service_started") (field "required" (boolean false) end)))
            end))
        end

  unfoldable pub override_document : Override → Fields
  unfolding put_field
  override_document st =
      let profiles = field "profiles" (arr (cons (str "local-llama") nil)) end in
      let llama = with_volumes st.mounts (if st.required then end else profiles) in
      let others = if st.required then end else field "gateway" (obj optional_gateway) end in
      field "services" (obj (field "llama" (obj llama) others))
        (if truthy (obj st.volumes) then field "volumes" (obj st.volumes) end else end)

  -- The loop of `render_compose_override`, and its result.
  unfoldable pub compose_override : Fields → Result Failure Override
  unfolding compose_models get_field
  compose_override catalog = and_then (mapping (get_or "models" (obj end) catalog)) λ models.
      compose_models catalog models (record { mounts = []; volumes = end; required = false })

  unfoldable pub render_compose_override : Fields → Result Failure Fields
  unfolding compose_override override_document
  render_compose_override catalog =
      and_then (compose_override catalog) λ st. ok (override_document st)
