-- ===== src/Routing.antt =====
-- Automatic routing: services/gateway/src/local_ai_hub/routing.py. A `type` that Python cannot hash, a
-- list or an object, is taken here for a type that is no text; `remove_control_prefix` crashes on it.
pub mod Prefix
use agent_ui.Prelude.{
  ℕ, ◌+◌, ◌*◌, String, Bool, false, ◌||◌, List, [], ◌∷◌, ◌++◌, Option, none, some, leb, ◌==◌,
  string_eq, if◌then◌else◌,
}
use mathlib.Core.List.{reverse}
use agent_ui.Prelude.Text.{strip, join, text_starts}
use agent_ui.Prelude.Json.{Value, Items, Fields, str, arr, obj, nil, cons, get_field, truthy}
use agent_ui.Host.{Host, lower}
use agent_ui.Regex.{Item, alt, boundary, found_in, texts, ignore_case}

abbrev choice : List String → Item
choice xs = alt ignore_case (texts xs)

abbrev between_words : (ℕ → Bool) → List Item → List Item
between_words word items = boundary word ∷ (items ++ boundary word ∷ [])

-- `_STORY_STRONG`
unfoldable pub story_strong : (ℕ → Bool) → List (List Item)
story_strong word =
    between_words word (
      choice ("continue the " ∷ "continue our " ∷ "continue my " ∷ [])
      ∷ choice ("story" ∷ "campaign" ∷ "scene" ∷ "adventure" ∷ [])
      ∷ [])
    ∷ between_words word (
        choice ("roleplay" ∷ "role-play" ∷ "in character" ∷ "game master" ∷ "dungeon master" ∷ [])
        ∷ [])
    ∷ between_words word (
        choice ("write a " ∷ "write the " ∷ [])
        ∷ choice ("scene" ∷ "chapter" ∷ "dialogue" ∷ "monologue" ∷ [])
        ∷ [])
    ∷ between_words word (
        choice
          ("campaign" ∷ "worldbuilding" ∷ "world-building" ∷ "character sheet" ∷ "lorebook" ∷ [])
        ∷ [])
    ∷ between_words word (choice ("narrate" ∷ "narrative prose" ∷ "fictional scene" ∷ []) ∷ [])
    ∷ []

-- `_STORY_WEAK`
unfoldable pub story_weak : (ℕ → Bool) → List (List Item)
story_weak word =
    between_words word (
      choice (
        "story" ∷ "scene" ∷ "character" ∷ "dialogue" ∷ "prose" ∷ "chapter" ∷ "plot" ∷ "setting"
        ∷ "adventure" ∷ [])
      ∷ [])
    ∷ between_words word (choice ("star wars" ∷ "rpg" ∷ "ttrpg" ∷ "gm" ∷ []) ∷ [])
    ∷ []

-- `_TECHNICAL`
unfoldable pub technical : (ℕ → Bool) → List Item
technical word = between_words word (
    choice (
      "debug" ∷ "code" ∷ "docker" ∷ "kubernetes" ∷ "network" ∷ "vlan" ∷ "api" ∷ "database"
      ∷ "server" ∷ "linux" ∷ "python" ∷ "scala" ∷ "typescript" ∷ "github" ∷ "pull request"
      ∷ "compile" ∷ "test" ∷ "benchmark" ∷ "gpu" ∷ "model" ∷ "llama.cpp" ∷ "error" ∷ "stack trace"
      ∷ [])
    ∷ [])

-- The part of `_text_content` for one item of a list.
unfoldable pub text_part : Value → Option String
unfolding get_field
text_part (obj fields) = elim (get_field "type" fields) [
  | some (str kind) ↦
      if kind == "text" || kind == "input_text"
      then elim (get_field "text" fields) [
        | some v ↦ if truthy v then text_value (some v) else text_value (get_field "content" fields)
        | none ↦ text_value (get_field "content" fields)
      ]
      else none
  | _ ↦ none
]
  where
    text_value : Option Value → Option String
    text_value (some (str t)) = some t
    text_value _ = none
text_part _ = none

unfoldable pub text_parts : Items → List String
unfolding text_part
text_parts nil = []
text_parts (cons v vs) = elim (text_part v) [ none ↦ text_parts vs | some t ↦ t ∷ text_parts vs ]

-- `_text_content`
unfoldable pub text_content : Option Value → String
unfolding text_parts
text_content (some (str t)) = t
text_content (some (arr items)) = join "\n" (text_parts items)
text_content _ = ""

abbrev pub has_role : String → Fields → Bool
has_role role message = elim (get_field "role" message) [ some (str r) ↦ r == role | _ ↦ false ]

first_user_text : List Fields → String
unfolding text_content
first_user_text [] = ""
first_user_text (m ∷ ms) =
    if has_role "user" m then text_content (get_field "content" m) else first_user_text ms

unfoldable pub latest_user_text : List Fields → String
unfolding first_user_text
latest_user_text messages = first_user_text (reverse messages)

-- `sum(bool(pattern.search(text)) for pattern in ...)`
unfoldable pub hits : List (List Item) → String → ℕ
unfolding found_in
hits [] text = 0
hits (p ∷ ps) text = (if found_in p text then 1 else 0) + hits ps text

pub record Score : Type 0 where
  pub strong : ℕ
  pub weak : ℕ
  pub is_technical : Bool

unfoldable pub score_of : (ℕ → Bool) → String → Score
unfolding hits story_strong story_weak technical
score_of word text = record {
  strong = hits (story_strong word) text;
  weak = hits (story_weak word) text;
  is_technical = found_in (technical word) text;
}

-- `score >= 3`, for `score = 3 * strong + weak`, less 2 if the text is technical
abbrev pub is_story : Score → Bool
is_story s = leb (if s.is_technical then 5 else 3) (s.strong * 3 + s.weak)

pub data Reason : Type 0 where
  story_prefix assistant_prefix : Reason
  story_intent general_intent : Score → Reason

-- The decision: the profile, and why.
unfoldable pub choose_automatic_profile : Host → List Fields → String × Reason
unfolding latest_user_text score_of
choose_automatic_profile h messages =
    let text = strip (latest_user_text messages) in
    let lowered = lower h text in
    if text_starts lowered "/story"
    then ("storyteller", story_prefix)
    else if text_starts lowered "/assistant" || text_starts lowered "/general"
    then ("assistant", assistant_prefix)
    else let score = score_of h.is_word text in
      if is_story score
      then ("storyteller", story_intent score)
      else ("assistant", general_intent score)
