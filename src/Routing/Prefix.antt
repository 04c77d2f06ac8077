-- ===== src/Routing/Prefix.antt =====
-- `remove_control_prefix` of services/gateway/src/local_ai_hub/routing.py: the directive at the head of
-- the latest message of the user is taken off.
use agent_ui.Prelude.{
  ℕ, String, Bool, false, List, [], ◌∷◌, Option, none, some, Result, ok, raise, and_then,
  case_option, contains, nat_beq, string_eq, if◌then◌else◌,
}
use mathlib.Core.List.{reverse}
use Prim.Native.Char.{code}
use agent_ui.Prelude.Text.{codes, lstrip}
use agent_ui.Prelude.Json.{Value, Items, Fields, str, arr, obj, nil, cons, get_field, put_field}
use agent_ui.Regex.{ignore_case}
use agent_ui.Routing.{has_role}

-- `InvalidChatRequest` with its text, without the names and values in it; or a `TypeError`
pub data ChatFailure : Type 0 where
  invalid_request : String → ChatFailure
  type_error : ChatFailure

-- `v in {...}`, for a set of texts: a list or an object has no hash.
abbrev pub is_among : List String → Option Value → Result ChatFailure Bool
is_among names (some (str s)) = ok (contains s names)
is_among names (some (arr items)) = raise type_error
is_among names (some (obj fields)) = raise type_error
is_among names _ = ok false

-- What is behind a text that another begins with, whatever the case.
after_prefix : List ℕ → String → Option String
after_prefix [] s = some s
after_prefix (x ∷ xs) String.[] = none
after_prefix (x ∷ xs) (String.◌∷◌ c s) =
    if nat_beq (ignore_case (code c)) x then after_prefix xs s else none

abbrev or_next : Option String → Option String → Option String
or_next none b = b
or_next (some s) b = some s

-- `/(?:story|assistant|general)`
unfoldable pub after_directive : String → Option String
unfolding after_prefix
after_directive t =
    or_next (after_prefix (codes "/story") t)
      (or_next (after_prefix (codes "/assistant") t) (after_prefix (codes "/general") t))

-- Whether a word goes on with the text.
abbrev goes_on : (ℕ → Bool) → String → Bool
goes_on word String.[] = false
goes_on word (String.◌∷◌ c s) = word (code c)

-- `prefix.sub("", text)`
unfoldable pub remove_directive : (ℕ → Bool) → String → String
unfolding after_directive lstrip
remove_directive word text =
    case_option (after_directive (lstrip text)) text
      λ rest. if goes_on word rest then text else lstrip rest

-- The loop over the parts of a content.
unfoldable pub trim_parts : (ℕ → Bool) → Items → Result ChatFailure Items
unfolding get_field put_field remove_directive contains
trim_parts word nil = ok nil
trim_parts word (cons (obj fields) vs) =
    let rest = and_then (trim_parts word vs) (λ out. ok (cons (obj fields) out)) in
    and_then (is_among ("text" ∷ "input_text" ∷ []) (get_field "type" fields)) λ is_text.
      if is_text
      then elim (get_field "text" fields) [
        | some (str t) ↦
            ok (cons (obj (put_field "text" (str (remove_directive word t)) fields)) vs)
        | _ ↦ rest
      ]
      else rest
trim_parts word (cons v vs) = and_then (trim_parts word vs) (λ out. ok (cons v out))

-- The loop over the messages, the latest first.
unfoldable pub trim_latest : (ℕ → Bool) → List Fields → Result ChatFailure (List Fields)
unfolding trim_parts get_field put_field remove_directive
trim_latest word [] = ok []
trim_latest word (m ∷ ms) =
    let rest = and_then (trim_latest word ms) (λ out. ok (m ∷ out)) in
    if has_role "user" m
    then elim (get_field "content" m) [
      | some (str t) ↦ ok (put_field "content" (str (remove_directive word t)) m ∷ ms)
      | some (arr items) ↦
          and_then (trim_parts word items) λ out. ok (put_field "content" (arr out) m ∷ ms)
      | _ ↦ rest
    ]
    else rest

unfoldable pub remove_control_prefix : (ℕ → Bool) → List Fields → Result ChatFailure (List Fields)
unfolding trim_latest
remove_control_prefix word messages =
    and_then (trim_latest word (reverse messages)) λ out. ok (reverse out)
