-- ===== src/Transform/Sent.antt =====
-- What a prepared chat is sent with.
use agent_ui.Prelude.{
  ℕ, String, List, map, Option, some, Result, ok, raise, ◌≡◌, ◌≢◌, refl, arith, sym, ◌∙◌, ap,
  string_eq, eq_iff,
}
use agent_ui.Prelude.Bind.{and_then-Ran, ok-injective}
use agent_ui.Prelude.Json.{
  Fields, str, arr, get_field, put_field, get-put_other, get-put_same, get-put_field,
}
use agent_ui.Host.{Host}
use agent_ui.MemoryContext.{ContextRecord}
use agent_ui.Profiles.{ResolvedProfile}
use agent_ui.Routing.Prefix.{remove_control_prefix}
use agent_ui.Transform.{
  apply_reasoning, apply_request_defaults, sent_model, prepare_passthrough_payload,
}
use agent_ui.Transform.Chat.{
  messages_of, part_messages, instruction_sections, with_instructions, array_of,
  prepare_chat_payload, as_chat,
}
use agent_ui.Transform.Messages.{
  plain, IsHeaded, remove_control_prefix-get, part_messages-plain, plain-SameFields,
  with_instructions-IsHeaded,
}

content_role : ◌≢◌ {A = String} "content" "role"
content_role = ground (arith, eq_iff "content" "role")

model_messages : ◌≢◌ {A = String} "model" "messages"
model_messages = ground (arith, eq_iff "model" "messages")

-- The steps of a chat that is prepared: the payload after the reasoning controls, what the messages
-- are read, trimmed and parted to, and what is sent.
record Prepared (h : Host) (raw out : Fields) (r : ResolvedProfile) (memories : List ContextRecord)
    (max_chars : ℕ) (override : Option String) : Type 0 where
  messages : List Fields
  trimmed : List Fields
  payload : Fields
  parted : List String × List Fields
  sent : List Fields
  read : messages_of (get_field "messages" raw) ≡ ok messages
  cut : remove_control_prefix h.is_word messages ≡ ok trimmed
  controlled : apply_reasoning (apply_request_defaults raw r) r override ≡ ok payload
  split : part_messages trimmed ≡ ok parted
  headed :
      with_instructions r (instruction_sections r parted.0 memories max_chars) parted.1 ≡ ok sent
  last :
      put_field "model" (str (sent_model r)) (put_field "messages" (arr (array_of sent)) payload)
      ≡ out

as_chat-ok : (x : Result String Fields) (p : Fields) → as_chat x ≡ ok p → x ≡ ok p
as_chat-ok (ok q) p h = ap ok (ok-injective q p h)
as_chat-ok (raise text) p h = absurd (ground (arith, h))

module _ (h : Host) (raw out : Fields) (r : ResolvedProfile) (memories : List ContextRecord)
    (max_chars : ℕ) (override : Option String)
    (ran : prepare_chat_payload h raw r memories max_chars override ≡ ok out) where
  Prepared-steps : Prepared h raw out r memories max_chars override
  unfolding prepare_chat_payload
  Prepared-steps =
      let controls = apply_reasoning (apply_request_defaults raw r) r override in
      let (messages, read, ran) = and_then-Ran (messages_of (get_field "messages" raw)) _ out ran in
      let (trimmed, cut, ran) = and_then-Ran (remove_control_prefix h.is_word messages) _ out ran in
      let (payload, controlled, ran) = and_then-Ran (as_chat controls) _ out ran in
      let (parted, split, ran) = and_then-Ran (part_messages trimmed) _ out ran in
      let sections = instruction_sections r parted.0 memories max_chars in
      let (sent, headed, last) = and_then-Ran (with_instructions r sections parted.1) _ out ran in
      record {
        messages = messages;
        trimmed = trimmed;
        payload = payload;
        parted = parted;
        sent = sent;
        read = read;
        cut = cut;
        controlled = as_chat-ok controls payload controlled;
        split = split;
        headed = headed;
        last = ok-injective _ out last;
      }

-- A prepared chat is sent with the messages of the request whose role is neither system nor
-- developer, in their order and unchanged in every field but the content, and before them at most
-- one message, whose role is one of these two; and the messages of the request are an array of
-- objects.
pub prepare_chat_payload-messages :
    (h : Host) (raw out : Fields) (r : ResolvedProfile) (memories : List ContextRecord)
    (max_chars : ℕ) (override : Option String) (j : String)
    → "content" ≢ j
    → prepare_chat_payload h raw r memories max_chars override ≡ ok out
    → (messages : List Fields) × (kept : List Fields) × (sent : List Fields) × (messages_of
          (get_field "messages" raw)
        ≡ ok messages)
      × (get_field "messages" out ≡ some (arr (array_of sent)))
      × IsHeaded kept sent
      × (map (get_field j) kept ≡ map (get_field j) (plain messages))
prepare_chat_payload-messages h raw out r memories max_chars override j other ran =
    let s = Prepared-steps h raw out r memories max_chars override ran in
    let named = put_field "messages" (arr (array_of s.sent)) s.payload in
    let same =
      plain-SameFields j s.trimmed s.messages
        (remove_control_prefix-get h.is_word "role" content_role s.messages s.trimmed s.cut)
        (remove_control_prefix-get h.is_word j other s.messages s.trimmed s.cut) in
    (
      s.messages,
      s.parted.1,
      s.sent,
      s.read,
      ap (get_field "messages") (sym s.last)
          ∙ get-put_other "model" "messages" (str (sent_model r)) named model_messages
          ∙ get-put_same "messages" (arr (array_of s.sent)) s.payload,
      with_instructions-IsHeaded r (instruction_sections r s.parted.0 memories max_chars) s.parted.1
          s.sent s.headed,
      ap (map (get_field j)) (part_messages-plain s.trimmed s.parted s.split) ∙ same,
    )

-- Where a chat is prepared, so is the same request as one that is passed through, and both are
-- sent with the same value under every key but the messages.
pub prepare_chat_payload-passthrough :
    (h : Host) (raw out : Fields) (r : ResolvedProfile) (memories : List ContextRecord)
    (max_chars : ℕ) (override : Option String) (j : String)
    → "messages" ≢ j
    → prepare_chat_payload h raw r memories max_chars override ≡ ok out
    → (passed : Fields) × (prepare_passthrough_payload raw r override ≡ ok passed)
      × (get_field j out ≡ get_field j passed)
unfolding prepare_passthrough_payload
prepare_chat_payload-passthrough h raw out r memories max_chars override j other ran =
    let s = Prepared-steps h raw out r memories max_chars override ran in
    let model = str (sent_model r) in
    let value = arr (array_of s.sent) in
    (
      put_field "model" model s.payload,
      rw s.controlled refl,
      ap (get_field j) (sym s.last)
          ∙ ground (
            arith,
            get-put_field "model" j model (put_field "messages" value s.payload),
            get-put_field "messages" j value s.payload,
            get-put_field "model" j model s.payload,
            eq_iff "messages" j,
            other,
          ),
    )
