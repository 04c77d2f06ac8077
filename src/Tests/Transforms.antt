-- ===== src/Tests/Transforms.antt =====
-- The theorems on prepared requests at one request each.
use agent_ui.Prelude.{
  String, true, none, some, List, [], ◌∷◌, map, ◌≡◌, ◌≢◌, refl, arith, eq_iff, ok,
}
use agent_ui.Prelude.Text.{is_space}
use agent_ui.Prelude.Json.{Fields, str, arr, end, field, get_field, put_field}
use agent_ui.Catalog.{ReasoningFeature, body, ignore}
use agent_ui.Profiles.{ResolvedProfile}
use agent_ui.Transform.{prepare_passthrough_payload, sent_model}
use agent_ui.Transform.Precedence.{or_else, prepare_passthrough_payload-get}
use agent_ui.Transform.Chat.{array_of, instruction_message, messages_of, prepare_chat_payload}
use agent_ui.Transform.Messages.{plain, IsHeaded}
use agent_ui.Transform.Sent.{prepare_chat_payload-messages, prepare_chat_payload-passthrough}
use agent_ui.Tests.Demo.{machine}
use agent_ui.Tests.Choices.{served, model_of, chat}

abbrev feature : ReasoningFeature
feature = record {
  supported = true;
  request_field = "effort";
  transport = body;
  values = end;
  unsupported_policy = ignore;
}

abbrev resolved : ResolvedProfile
resolved = record served {
  profile = record chat { defaults = field "stop" (str "experience") end };
  model = record (model_of 5) {
    reasoning = some feature;
    defaults = field "stop" (str "model") end;
  };
}

abbrev raw : Fields
raw = field "model" (str "chat") (field "reasoning_effort" (str "deep") end)

abbrev prepared : Fields
prepared =
    field "model" (str "beta") (field "stop" (str "experience") (field "effort" (str "deep") end))

prepared_run : prepare_passthrough_payload raw resolved none ≡ ok prepared
unfolding prepare_passthrough_payload get_field put_field
prepared_run = refl

model_stop : ◌≢◌ {A = String} "model" "stop"
model_stop = ground (arith, eq_iff "model" "stop")

effort_stop : ◌≢◌ {A = String} "reasoning_effort" "stop"
effort_stop = ground (arith, eq_iff "reasoning_effort" "stop")

field_stop : ◌≢◌ {A = String} "effort" "stop"
field_stop = ground (arith, eq_iff "effort" "stop")

kwargs_stop : ◌≢◌ {A = String} "chat_template_kwargs" "stop"
kwargs_stop = ground (arith, eq_iff "chat_template_kwargs" "stop")

prepare_passthrough_payload-get_example :
    (get_field "model" prepared ≡ some (str (sent_model resolved)))
    × (get_field "stop" prepared
        ≡ or_else
            (or_else (get_field "stop" raw) (get_field "stop" resolved.profile.defaults))
            (get_field "stop" resolved.model.defaults))
prepare_passthrough_payload-get_example =
    prepare_passthrough_payload-get raw prepared resolved none "stop" model_stop effort_stop
      (field_stop, kwargs_stop) prepared_run

abbrev chat_raw : Fields
chat_raw =
    field "messages"
      (arr (
        array_of (
          instruction_message "system" " Be brief. "
          ∷ instruction_message "user" " /Story once upon a time"
          ∷ [])))
      end

abbrev chat_sent : List Fields
chat_sent =
    instruction_message "system" "# Client-provided instructions\n\nBe brief."
    ∷ instruction_message "user" "once upon a time"
    ∷ []

abbrev chat_out : Fields
chat_out =
    field "messages" (arr (array_of chat_sent))
      (field "stop" (str "experience") (field "model" (str "beta") end))

chat_run : prepare_chat_payload machine chat_raw resolved [] 0 none ≡ ok chat_out
unfolding prepare_chat_payload get_field put_field is_space
chat_run = refl

content_role : ◌≢◌ {A = String} "content" "role"
content_role = ground (arith, eq_iff "content" "role")

prepare_chat_payload-messages_example :
    (messages : List Fields) × (kept : List Fields) × (sent : List Fields) × (messages_of
        (get_field "messages" chat_raw)
      ≡ ok messages)
    × (get_field "messages" chat_out ≡ some (arr (array_of sent)))
    × IsHeaded kept sent
    × (map (get_field "role") kept ≡ map (get_field "role") (plain messages))
prepare_chat_payload-messages_example =
    prepare_chat_payload-messages machine chat_raw chat_out resolved [] 0 none "role" content_role
      chat_run

messages_stop : ◌≢◌ {A = String} "messages" "stop"
messages_stop = ground (arith, eq_iff "messages" "stop")

prepare_chat_payload-passthrough_example :
    (passed : Fields) × (prepare_passthrough_payload chat_raw resolved none ≡ ok passed)
    × (get_field "stop" chat_out ≡ get_field "stop" passed)
prepare_chat_payload-passthrough_example =
    prepare_chat_payload-passthrough machine chat_raw chat_out resolved [] 0 none "stop"
      messages_stop chat_run
