-- ===== src/Transform/Chat.antt =====
-- `prepare_chat_payload` of services/gateway/src/local_ai_hub/transform.py: the instructions of the
-- experience, of the client and of the memory become one message before the conversation.
use agent_ui.Prelude.{
  ℕ, String, List, [], ◌∷◌, ◌++◌, Option, none, some, Result, ok, raise, and_then, case_option,
  if◌then◌else◌,
}
use agent_ui.Prelude.Text.{is_empty, strip, join, join_two}
use agent_ui.Prelude.Json.{
  Value, Items, Fields, str, arr, obj, nil, cons, end, field, get_field, put_field,
}
use agent_ui.Catalog.{truthy_text}
use agent_ui.Host.{Host}
use agent_ui.MemoryContext.{ContextRecord, render_memory_context}
use agent_ui.Profiles.{ResolvedProfile}
use agent_ui.Routing.Prefix.{ChatFailure, invalid_request, is_among, remove_control_prefix}
use agent_ui.Transform.{apply_request_defaults, apply_reasoning, sent_model}

-- The messages of a request: an array of objects.
unfoldable pub objects_of : Items → Option (List Fields)
objects_of nil = some []
objects_of (cons (obj fields) vs) = case_option (objects_of vs) none (λ rest. some (fields ∷ rest))
objects_of (cons _ vs) = none

unfoldable pub messages_of : Option Value → Result ChatFailure (List Fields)
unfolding objects_of
messages_of (some (arr items)) =
    case_option (objects_of items) (raise (invalid_request "messages must be an array of objects"))
      (λ messages. ok messages)
messages_of _ = raise (invalid_request "messages must be an array of objects")

abbrev pub instruction_roles : List String
instruction_roles = "system" ∷ "developer" ∷ []

-- The texts of the parts of an instruction.
unfoldable pub instruction_parts : Items → List String
unfolding get_field strip
instruction_parts nil = []
instruction_parts (cons (obj fields) vs) = elim (get_field "text" fields) [
  | some (str t) ↦
      if is_empty (strip t) then instruction_parts vs else strip t ∷ instruction_parts vs
  | _ ↦ instruction_parts vs
]
instruction_parts (cons _ vs) = instruction_parts vs

abbrev no_text : Result ChatFailure String
no_text = raise (invalid_request "system and developer message content must contain text")

abbrev joined_parts : List String → Result ChatFailure String
joined_parts [] = no_text
joined_parts (t ∷ ts) = ok (join "\n" (t ∷ ts))

-- `_instruction_content`
unfoldable pub instruction_content : Fields → Result ChatFailure String
unfolding instruction_parts get_field strip
instruction_content message = elim (get_field "content" message) [
  | some (str t) ↦ ok (strip t)
  | some (arr items) ↦ joined_parts (instruction_parts items)
  | _ ↦ no_text
]

abbrev add_text : String → List String → List String
add_text t ts = if is_empty t then ts else t ∷ ts

abbrev pub with_text :
    String → List String × List Fields → Result ChatFailure (List String × List Fields)
with_text content (texts, kept) = ok (add_text content texts, kept)

abbrev pub with_message :
    Fields → List String × List Fields → Result ChatFailure (List String × List Fields)
with_message m (texts, kept) = ok (texts, m ∷ kept)

-- The loop that parts the instructions of the client from the conversation.
unfoldable pub part_messages : List Fields → Result ChatFailure (List String × List Fields)
unfolding instruction_content get_field
part_messages [] = ok ([], [])
part_messages (m ∷ ms) =
    let rest = part_messages ms in
    and_then (is_among instruction_roles (get_field "role" m)) λ is_instruction.
      if is_instruction
      then and_then (instruction_content m) (λ content. and_then rest (with_text content))
      else and_then rest (with_message m)

-- `_section`
unfoldable pub section : String → String → String
unfolding strip
section title content = join_two "# " (join_two title (join_two "\n\n" (strip content)))

abbrev client_section : List String → List String
client_section [] = []
client_section (t ∷ ts) = section "Client-provided instructions" (join "\n\n" (t ∷ ts)) ∷ []

unfoldable pub instruction_sections :
    ResolvedProfile → List String → List ContextRecord → ℕ → List String
unfolding section render_memory_context join strip
instruction_sections r texts memories max_chars =
    case_option (truthy_text r.profile.system_prompt) []
      (λ prompt. section "Experience instructions" (strip prompt) ∷ [])
    ++ client_section texts
    ++ case_option (truthy_text (render_memory_context memories max_chars)) []
        (λ context. section "Retrieved memory" context ∷ [])

abbrev pub chosen_role : Option Value → Result ChatFailure String
chosen_role configured = and_then (is_among instruction_roles configured) λ allowed.
    ok (if allowed then elim configured [ some (str role) ↦ role | _ ↦ "system" ] else "system")

-- The role that the model's metadata asks for, if it is one of the two.
unfoldable pub instruction_role : ResolvedProfile → Result ChatFailure String
unfolding get_field
instruction_role r = chosen_role (get_field "instruction_role" r.model.metadata)

abbrev pub instruction_message : String → String → Fields
instruction_message role text = field "role" (str role) (field "content" (str text) end)

unfoldable pub with_instructions :
    ResolvedProfile → List String → List Fields → Result ChatFailure (List Fields)
unfolding instruction_role join
with_instructions r [] conversation = ok conversation
with_instructions r (s ∷ ss) conversation =
    and_then (instruction_role r)
      λ role. ok (instruction_message role (join "\n\n" (s ∷ ss)) ∷ conversation)

abbrev pub array_of : List Fields → Items
array_of [] = nil
array_of (m ∷ ms) = cons (obj m) (array_of ms)

abbrev pub as_chat : Result String Fields → Result ChatFailure Fields
as_chat (ok payload) = ok payload
as_chat (raise text) = raise (invalid_request text)

unfoldable pub prepare_chat_payload :
    Host
    → Fields
    → ResolvedProfile
    → List ContextRecord
    → ℕ
    → Option String
    → Result ChatFailure Fields
unfolding messages_of remove_control_prefix apply_request_defaults apply_reasoning part_messages
    instruction_sections with_instructions get_field put_field
prepare_chat_payload h raw r memories max_chars override =
    and_then (messages_of (get_field "messages" raw)) λ messages.
      and_then (remove_control_prefix h.is_word messages) λ trimmed.
        and_then (as_chat (apply_reasoning (apply_request_defaults raw r) r override)) λ payload.
          and_then (part_messages trimmed) λ (texts, kept).
            and_then (with_instructions r (instruction_sections r texts memories max_chars) kept)
              λ sent. ok (
                put_field "model" (str (sent_model r))
                  (put_field "messages" (arr (array_of sent)) payload))
