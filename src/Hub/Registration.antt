-- ===== src/Hub/Registration.antt =====
-- `model register` of ops/hubctl.py: the model and the experience that it puts into the overlay.
use agent_ui.Prelude.{
  String, Bool, true, false, List, [], ◌∷◌, Option, none, some, Result, ok, raise, and_then,
  case_option, if◌then◌else◌, nat_beq,
}
use agent_ui.Prelude.Text.{join_two}
use agent_ui.Prelude.Json.{
  Fields, ℤ, boolean, int, str, obj, end, field, get_field, put_field, set_default, truthy,
}
use agent_ui.Host.{Host}
use agent_ui.Catalog.{truthy_text}
use agent_ui.Hub.Merge.{merge_mapping}
use agent_ui.Hub.Documents.{
  Failure, hub_error, crash, Yaml, Files, read_yaml, atomic_write, get_or, require,
}
use agent_ui.Hub.Paths.{path, path_name}
use agent_ui.Hub.Validation.{validate_id, validate_catalog}
use agent_ui.Hub.Catalogs.{checked_overlay}
use Prim.Native.Char.{code}

pub record RegisterArgs : Type 0 where
  pub model_id : String
  pub catalog : String
  pub overlay : String
  pub backend : String
  pub upstream_model : Option String
  pub display_name : Option String
  pub description : Option String
  pub capability : List String
  pub priority : ℤ
  pub source_kind : String
  pub path : Option String
  pub filename : Option String
  pub volume : Option String
  pub sub_path : Option String
  pub claim_name : Option String
  pub context : Option ℤ
  pub runtime : List String
  pub reasoning : List String
  pub reasoning_field : String
  pub reasoning_transport : String
  pub experience : Option String

abbrev is_listed : List String → Bool
is_listed [] = false
is_listed (_ ∷ _) = true

-- `item.split("=", 1)`; `none` where there is no `=`
unfoldable pub split_once : String → Option (String × String)
split_once String.[] = none
split_once (String.◌∷◌ c s) =
    let later = split_once s in
    if nat_beq (code c) b'='
    then some ("", s)
    else case_option later none (λ (k, v). some (String.◌∷◌ c k, v))

module _ {Content : Type 0} (y : Yaml Content) where
  -- `parse_key_values`, from the result of the items before
  unfoldable pub key_values : List String → Fields → Result Failure Fields
  unfolding split_once put_field
  key_values [] result = ok result
  key_values (item ∷ items) result =
      case_option (split_once item) (raise (hub_error "Expected KEY=VALUE")) λ (key, raw).
        key_values items (put_field key (case_option (y.load_text raw) (str raw) (λ v. v)) result)

  -- `if v: d[name] = v`
  abbrev put_given : String → Option String → Fields → Fields
  put_given name v d = case_option (truthy_text v) d (λ s. put_field name (str s) d)

  abbrev or_text : Option String → String → String
  or_text v s = case_option (truthy_text v) s (λ t. t)

  unfoldable pub capability_fields : List String → Fields → Fields
  unfolding put_field
  capability_fields [] d = d
  capability_fields (item ∷ items) d = capability_fields items (put_field item (obj end) d)

  abbrev pub registered_artifact : RegisterArgs → Fields
  registered_artifact a = put_given "claim_name" a.claim_name (
      put_given "sub_path" a.sub_path (
        put_given "volume" a.volume (
          case_option (truthy_text a.filename)
            (put_given "path" a.path (field "kind" (str a.source_kind) end))
            (λ name.
              put_field "filename" (str (path_name (path name)))
                (put_given "path" a.path (field "kind" (str a.source_kind) end))))))

  abbrev with_context : Option ℤ → Fields → Fields
  with_context none runtime = runtime
  with_context (some n) runtime =
      if truthy (int n) then set_default "ctx-size" (int n) runtime else runtime

  unfoldable pub registered_features : RegisterArgs → Result Failure Fields
  unfolding key_values
  registered_features a = elim a.reasoning [
    | [] ↦ ok end
    | _ ∷ _ ↦ and_then (key_values a.reasoning end) λ values. ok (
        field "reasoning"
          (obj (
            field "supported" (boolean true) (
              field "request_field" (str a.reasoning_field) (
                field "transport" (str a.reasoning_transport)
                  (field "values" (obj values) (field "unsupported_policy" (str "reject") end))))))
          end)
  ]

  unfoldable pub registered_model : RegisterArgs → Fields → Fields → Fields
  unfolding capability_fields path put_field
  registered_model a runtime features =
      field "display_name" (str (or_text a.display_name a.model_id)) (
        field "description" (str (or_text a.description "Operator-registered model.")) (
          field "enabled" (boolean true) (
            field "backend" (str a.backend) (
              field "upstream_model" (str (or_text a.upstream_model a.model_id)) (
                field "capabilities" (obj (capability_fields a.capability end)) (
                  field "features" (obj features) (
                    field "artifact" (obj (registered_artifact a))
                      (field "runtime" (obj runtime) (field "priority" (int a.priority) end)))))))))

  -- `d.setdefault(name, {})[id] = v`
  abbrev pub put_under : String → String → Fields → Fields → Result Failure Fields
  put_under name id v d = elim (get_or name (obj end) d) [
    | obj inner ↦ ok (put_field name (obj (put_field id (obj v) inner)) d)
    | _ ↦ raise (crash "TypeError")
  ]

  abbrev first_of : List String → String
  first_of [] = ""
  first_of (x ∷ xs) = x

  -- The overlay with the experience that is asked for.
  unfoldable pub with_experience : RegisterArgs → Fields → Result Failure Fields
  unfolding validate_id get_field put_field
  with_experience a overlay = case_option (truthy_text a.experience) (ok overlay) λ experience.
      and_then (validate_id experience) λ _.
        put_under "experiences" experience
          (field "advertised" (boolean true) (
            field "model" (str a.model_id) (
              field "capability" (str (first_of a.capability)) (
                field "description"
                  (str (
                    or_text a.description
                      (join_two "Experience backed by " (join_two a.model_id "."))))
                  (field "defaults" (obj end) end)))))
          overlay

  -- The overlay that `cmd_model_register` writes.
  unfoldable pub registered_overlay : Host → RegisterArgs → Files Content → Result Failure Fields
  unfolding validate_id read_yaml key_values registered_features registered_model with_experience
      merge_mapping validate_catalog checked_overlay set_default get_field put_field
  registered_overlay h a files = and_then (validate_id a.model_id) λ _.
      and_then (read_yaml y a.overlay true files) λ read.
        let versioned = set_default "version" (int (ℤ.pos 2)) read in
        and_then (require (is_listed a.capability) "At least one --capability is required") λ _.
          and_then (key_values a.runtime end) λ runtime.
            and_then (registered_features a) λ features.
              let model = registered_model a (with_context a.context runtime) features in
              and_then (put_under "models" a.model_id model versioned) λ listed.
                and_then (with_experience a listed) λ overlay.
                  and_then (read_yaml y a.catalog false files) λ base.
                    and_then (validate_catalog h (merge_mapping base overlay))
                      λ _. ok (checked_overlay h base overlay)

  unfoldable pub cmd_model_register :
      Host → RegisterArgs → Files Content → Result Failure Fields × Files Content
  unfolding registered_overlay atomic_write path put_field
  cmd_model_register h a files = elim (registered_overlay h a files) [
    | raise e ↦ (raise e, files)
    | ok overlay ↦ (
      ok (field "registered" (str a.model_id) (field "artifact" (obj (registered_artifact a)) end)),
      atomic_write a.overlay (y.safe_dump overlay) files,
    )
  ]
