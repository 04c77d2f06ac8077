-- ===== src/Service/Import.antt =====
-- `import_personal` of memory_service.py.
use agent_ui.Prelude.{
  case_option, ℕ, ◌+◌, String, List, [], ◌∷◌, Option, none, some, Result, ok, raise, pure, lift,
  ◌>>=◌, ◌>>◌, if◌then◌else◌,
}
use agent_ui.Prelude.Text.{is_empty, strip}
use agent_ui.Prelude.Json.{Fields, str, obj, end, get_field, truthy}
use agent_ui.Host.{Host}
use agent_ui.Provider.{Error, other_error}
use agent_ui.Repository.State.{MemoryRecordRef, MemorySpace}
use agent_ui.Repository.References
use agent_ui.Service.World.{MemoryService, reading}
use agent_ui.Service.Candidates.{to_text, float_or_raise, or_half}
use agent_ui.Service.Access.{personal_space}
use agent_ui.Service.Records.{Method, add_approved, nonempty}

-- `item.get(k)` as text, if it is truthy
unfoldable pub text_field : Host → String → Fields → Option String
unfolding to_text
text_field h k item =
    case_option (get_field k item) none (λ v. if truthy v then some (to_text h v) else none)

-- `str(item.get("external_id") or item.get("record_id") or "") or None`
unfoldable pub import_id : Host → Fields → Option String
unfolding text_field
import_id h item =
    case_option (text_field h "external_id" item) (nonempty (text_field h "record_id" item))
      (λ id. nonempty (some id))

-- `dict(item.get("metadata") or {})`
unfoldable pub import_metadata : Host → Fields → Result Error Fields
import_metadata h item = elim (get_field "metadata" item) [
  | none ↦ ok end
  | some (obj fs) ↦ ok fs
  | some v ↦
      if truthy v
      then case_option (h.dict_of v) (raise (other_error "cannot convert to a dictionary"))
          (λ fs. ok fs)
      else ok end
]

-- A content that is imported.
unfoldable pub import_content : Fields → Option String
import_content item = elim (get_field "content" item) [
  | some (str content) ↦ if is_empty (strip content) then none else some content
  | _ ↦ none
]

pub record Imported : Type 0 where
  pub imported : ℕ
  pub skipped : ℕ

abbrev pub count_skipped : Imported → Imported
count_skipped counts = record counts { skipped = counts.skipped + 1 }

abbrev pub count_imported : Imported → Imported
count_imported counts = record counts { imported = counts.imported + 1 }

module _ (s : MemoryService) where
  abbrev pub find_known : String → MemorySpace → Option String → Method s (Option MemoryRecordRef)
  find_known principal space none = pure none
  find_known principal space (some external) =
      reading (λ r. References.find_external_ref r principal space.id external)

  -- The end of a round for an item that is added.
  unfoldable pub add_item :
      String → Fields → String → Option String → MemorySpace → Imported → Method s Imported
  unfolding import_metadata add_approved float_or_raise
  add_item principal item content external before counts = do
    metadata ← lift (import_metadata s.host item)
    importance ← lift (float_or_raise s.host (or_half (get_field "importance" item)))
    add_approved s principal content (some "import") metadata importance external (some before)
    pure (count_imported counts)

  -- One round of the loop, with its three counts.
  unfoldable pub import_one : String → Fields → Imported → Method s Imported
  unfolding import_content import_id personal_space add_item
  import_one principal item counts =
      case_option (import_content item) (pure (count_skipped counts)) (λ content. do
        let external = import_id s.host item
        before ← personal_space s principal
        existing ← find_known principal before external
        case_option existing (add_item principal item content external before counts)
            (λ _. pure (count_skipped counts)))

  unfoldable pub import_loop : String → List Fields → Imported → Method s Imported
  unfolding import_one
  import_loop principal [] counts = pure counts
  import_loop principal (item ∷ items) counts = do
    counted ← import_one principal item counts
    import_loop principal items counted

  unfoldable pub import_personal : String → List Fields → Method s Imported
  unfolding import_loop
  import_personal principal items =
      import_loop principal items (record { imported = 0; skipped = 0 })
