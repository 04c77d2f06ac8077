-- ===== src/Hub/Artifacts.antt =====
-- Where ops/hubctl.py takes the weights of a model from.
use agent_ui.Prelude.{
  String, ◌&&◌, [], ◌∷◌, Option, none, some, Result, ok, raise, and_then, case_option,
  if◌then◌else◌, ◌==◌, string_eq,
}
use agent_ui.Prelude.Text.{join_two}
use agent_ui.Prelude.Json.{Value, Fields, null, arr, obj, end, get_field, truthy}
use agent_ui.Host.{Host, lower}
use agent_ui.Hub.Documents.{Failure, crash, get_or, is_one_of}
use agent_ui.Hub.Paths.{PosixPath, path, path_name, path_suffix, joined}
use agent_ui.Hub.Validation.{artifact_value, artifact_kind, text_of, is_text, capability_dict}

-- `dict(v)`
abbrev dict_or_raise : Host → Value → Result Failure Fields
dict_or_raise h (obj d) = ok d
dict_or_raise h v = case_option (h.dict_of v) (raise (crash "dict")) ok

unfoldable pub artifact_for : Host → Fields → Result Failure Fields
artifact_for h model = dict_or_raise h (artifact_value model)

abbrev pub capabilities_or_raise : Host → Value → Result Failure Fields
capabilities_or_raise h (arr items) = ok (capability_dict h items end)
capabilities_or_raise h v = if truthy v then dict_or_raise h v else ok end

unfoldable pub normalize_capabilities : Host → Fields → Result Failure Fields
unfolding get_field capability_dict
normalize_capabilities h model = capabilities_or_raise h (get_or "capabilities" null model)

-- The file name, for an artifact.
unfoldable pub filename_of : Host → String → Fields → String
unfolding get_field path path_suffix lower
filename_of h id artifact =
    let filename = get_or "filename" null artifact in
    let source = get_or "path" null artifact in
    if truthy filename
    then path_name (path (text_of h filename))
    else if truthy source && lower h (path_suffix (path (text_of h source))) == ".gguf"
    then path_name (path (text_of h source))
    else join_two id ".gguf"

unfoldable pub artifact_filename : Host → String → Fields → Result Failure String
unfolding artifact_for filename_of
artifact_filename h id model =
    and_then (artifact_for h model) λ artifact. ok (filename_of h id artifact)

-- `/models/external/<id>`
abbrev pub external : String → String
external id = join_two "/models/external/" id

-- `artifact.get("sub_path") or filename`
abbrev relative_of : Host → String → Fields → String
relative_of h filename artifact =
    let v = get_or "sub_path" null artifact in if truthy v then text_of h v else filename

-- `artifact[name]`
abbrev pub required_item : String → Fields → Result Failure Value
required_item name artifact = case_option (get_field name artifact) (raise (crash "KeyError")) ok

unfoldable pub path_of : Host → String → PosixPath → Fields → Result Failure (Option PosixPath)
unfolding get_field filename_of joined path is_one_of
path_of h id models_dir artifact =
    let kind = artifact_kind artifact in
    let filename = filename_of h id artifact in
    if is_text "managed" kind
    then ok (some (joined (joined models_dir "managed") filename))
    else if is_text "host_path" kind
    then ok (some (path (join_two (external id) (join_two "/" filename))))
    else if is_text "docker_volume" kind
    then ok (some (joined (path (external id)) (relative_of h filename artifact)))
    else if is_text "container_path" kind
    then (and_then (required_item "path" artifact) λ v. ok (some (path (text_of h v))))
    else (and_then (is_one_of ("pvc" ∷ "hostPath" ∷ []) kind) λ in_cluster. ok (
        if in_cluster
        then some (joined (path (external id)) (relative_of h filename artifact))
        else none))

unfoldable pub resolved_model_path :
    Host → String → Fields → PosixPath → Result Failure (Option PosixPath)
unfolding artifact_for path_of
resolved_model_path h id model models_dir =
    and_then (artifact_for h model) λ artifact. path_of h id models_dir artifact
