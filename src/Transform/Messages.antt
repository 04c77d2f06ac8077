-- ===== src/Transform/Messages.antt =====
-- Which messages a chat is sent with.
use agent_ui.Prelude.{
  ℕ, String, Bool, true, false, not, List, [], ◌∷◌, map, Option, none, some, Result, ok, and_then,
  contains, if◌then◌else◌, ◌≡◌, ◌≢◌, refl, arith, ◌⊎◌, inl, inr, sym, ◌∙◌, ap, Option-cases,
  Bool-cases, string_eq,
}
use mathlib.Core.List.{reverse, reverse-reverse, head-eq_of_cons-eq, tail-eq_of_cons-eq}
use mathlib.Mathlib.Data.List.Basic.{map-reverse_aux}
use agent_ui.Prelude.Bind.{and_then-Ran, ok-injective}
use agent_ui.Prelude.Json.{
  Value, Fields, str, arr, obj, null, boolean, int, float, get_field, put_field, get-put_other,
}
use agent_ui.Profiles.{ResolvedProfile}
use agent_ui.Routing.{has_role}
use agent_ui.Routing.Prefix.{
  ChatFailure, is_among, trim_parts, trim_latest, remove_directive, remove_control_prefix,
}
use agent_ui.Transform.Chat.{
  instruction_roles, instruction_content, with_message, part_messages, chosen_role,
  instruction_role, instruction_message, with_instructions,
}

-- A role that is neither of the two of instructions.
abbrev pub is_plain_role : Option Value → Bool
is_plain_role (some (str s)) = not (contains s instruction_roles)
is_plain_role _ = true

-- The messages that are no instructions.
unfoldable pub plain : List Fields → List Fields
unfolding get_field contains
plain [] = []
plain (m ∷ ms) = if is_plain_role (get_field "role" m) then m ∷ plain ms else plain ms

abbrev pub SameFields : String → List Fields → List Fields → Type 0
SameFields j out ms = map (get_field j) out ≡ map (get_field j) ms

module _ (word : ℕ → Bool) (j : String) (other : "content" ≢ j) where
  replaced :
      (m : Fields) (ms out : List Fields) (v : Value)
      → ◌≡◌ {A = Result ChatFailure (List Fields)} (ok (put_field "content" v m ∷ ms)) (ok out)
      → SameFields j out (m ∷ ms)
  replaced m ms out v h =
      ap (map (get_field j)) (sym (ok-injective (put_field "content" v m ∷ ms) out h))
      ∙ ap (λ f. f ∷ map (get_field j) ms) (get-put_other "content" j v m other)

  -- The rest of the messages is trimmed as it should be.
  module _ (m : Fields) (ms out : List Fields)
      (later : (rest : List Fields) → trim_latest word ms ≡ ok rest → SameFields j rest ms) where
    passed :
        and_then (trim_latest word ms) (λ rest. ok (m ∷ rest)) ≡ ok out → SameFields j out (m ∷ ms)
    passed h =
        let (rest, found, last) = and_then-Ran (trim_latest word ms) _ out h in
        ap (map (get_field j)) (sym (ok-injective (m ∷ rest) out last))
        ∙ ap (λ fs. get_field j m ∷ fs) (later rest found)

    trimmed_user :
        (v : Value)
        → has_role "user" m ≡ true
        → get_field "content" m ≡ some v
        → trim_latest word (m ∷ ms) ≡ ok out
        → SameFields j out (m ∷ ms)
    unfolding trim_latest
    trimmed_user (str t) user there h =
        replaced m ms out (str (remove_directive word t)) (rw (user, there) at h)
    trimmed_user (arr items) user there h =
        let (parts, _, last) = and_then-Ran (trim_parts word items) _ out (rw (user, there) at h) in
        replaced m ms out (arr parts) last
    trimmed_user null user there h = passed (rw (user, there) at h)
    trimmed_user (boolean b) user there h = passed (rw (user, there) at h)
    trimmed_user (int n) user there h = passed (rw (user, there) at h)
    trimmed_user (float x) user there h = passed (rw (user, there) at h)
    trimmed_user (obj fs) user there h = passed (rw (user, there) at h)

    trimmed_message : trim_latest word (m ∷ ms) ≡ ok out → SameFields j out (m ∷ ms)
    unfolding trim_latest
    trimmed_message h = elim (Bool-cases (has_role "user" m)) [
      | inr no_user ↦ passed (rw no_user at h)
      | inl user ↦ elim (Option-cases (get_field "content" m)) [
        | inl absent ↦ passed (rw (user, absent) at h)
        | inr (v, there) ↦ trimmed_user v user there h
      ]
    ]

  trim_latest-get : (ms out : List Fields) → trim_latest word ms ≡ ok out → SameFields j out ms
  unfolding trim_latest
  trim_latest-get [] out h = ap (map (get_field j)) (sym (ok-injective [] out h))
  trim_latest-get (m ∷ ms) out h = trimmed_message m ms out (trim_latest-get ms) h

  -- Only the content of a message is changed.
  pub remove_control_prefix-get :
      (ms out : List Fields) → remove_control_prefix word ms ≡ ok out → SameFields j out ms
  unfolding remove_control_prefix
  remove_control_prefix-get ms out h =
      let (trimmed, found, last) = and_then-Ran (trim_latest word (reverse ms)) _ out h in
      ap (map (get_field j)) (sym (ok-injective (reverse trimmed) out last))
      ∙ map-reverse_aux (get_field j) trimmed []
      ∙ ap reverse (trim_latest-get (reverse ms) trimmed found)
      ∙ ap reverse (map-reverse_aux (get_field j) ms [])
      ∙ reverse-reverse (map (get_field j) ms)

is_among-plain :
    (o : Option Value) (b : Bool) → is_among instruction_roles o ≡ ok b → is_plain_role o ≡ not b
unfolding contains
is_among-plain none b h = ap not (ok-injective false b h)
is_among-plain (some (str s)) b h = ap not (ok-injective _ b h)
is_among-plain (some null) b h = ap not (ok-injective false b h)
is_among-plain (some (boolean c)) b h = ap not (ok-injective false b h)
is_among-plain (some (int n)) b h = ap not (ok-injective false b h)
is_among-plain (some (float x)) b h = ap not (ok-injective false b h)
is_among-plain (some (arr xs)) b h = absurd (ground (arith, h))
is_among-plain (some (obj fs)) b h = absurd (ground (arith, h))

-- What is kept of the messages is those that are no instructions.
pub part_messages-plain :
    (ms : List Fields) (parted : List String × List Fields)
    → part_messages ms ≡ ok parted
    → parted.1 ≡ plain ms
unfolding part_messages plain
part_messages-plain [] parted h = ap (λ p. p.1) (sym (ok-injective ([], []) parted h))
part_messages-plain (m ∷ ms) parted h =
    let (b, among, ran) =
      and_then-Ran (is_among instruction_roles (get_field "role" m)) _ parted h in
    let role = is_among-plain (get_field "role" m) b among in
    elim (Bool-cases b) [
      | inl instruction ↦
          let (content, _, ran) =
            and_then-Ran (instruction_content m) _ parted (rw instruction at ran) in
          let (rest, found, last) = and_then-Ran (part_messages ms) _ parted ran in
          let kept : rest.1 ≡ parted.1 = ap (λ p. p.1) (ok-injective (_, rest.1) parted last) in
          sym kept ∙ part_messages-plain ms rest found ∙ rw (role, instruction) refl
      | inr message ↦
          let (rest, found, last) =
            and_then-Ran (part_messages ms) (with_message m) parted (rw message at ran) in
          let kept : m ∷ rest.1 ≡ parted.1 =
            ap (λ p. p.1) (ok-injective (_, m ∷ rest.1) parted last) in
          sym kept ∙ ap (λ fs. m ∷ fs) (part_messages-plain ms rest found) ∙ rw (role, message) refl
    ]

-- Two lists of messages with the same roles keep the same places.
pub plain-SameFields :
    (j : String) (xs ys : List Fields)
    → SameFields "role" xs ys
    → SameFields j xs ys
    → SameFields j (plain xs) (plain ys)
unfolding plain
plain-SameFields j [] [] roles same = refl
plain-SameFields j [] (y ∷ ys) roles same = absurd (ground (arith, roles))
plain-SameFields j (x ∷ xs) [] roles same = absurd (ground (arith, roles))
plain-SameFields j (x ∷ xs) (y ∷ ys) roles same =
    let rest = plain-SameFields j xs ys (tail-eq_of_cons-eq roles) (tail-eq_of_cons-eq same) in
    let role = head-eq_of_cons-eq roles in
    elim (Bool-cases (is_plain_role (get_field "role" y))) [
      | inl kept ↦
          rw (role, kept)
            (ap (λ v. v ∷ map (get_field j) (plain xs)) (head-eq_of_cons-eq same)
              ∙ ap (λ fs. get_field j y ∷ fs) rest)
      | inr dropped ↦ rw (role, dropped) rest
    ]

-- The conversation alone, or behind a message of an instruction role.
abbrev pub IsHeaded : List Fields → List Fields → Type 0
IsHeaded kept sent =
    (sent ≡ kept)
    ⊎ ((role : String) × (text : String) × (contains role instruction_roles ≡ true)
        × (sent ≡ instruction_message role text ∷ kept))

allowed_default :
    (role : String)
    → ◌≡◌ {A = Result ChatFailure String} (ok "system") (ok role)
    → contains role instruction_roles ≡ true
unfolding contains
allowed_default role h = ap (λ t. contains t instruction_roles) (sym (ok-injective "system" role h))

chosen_role-allowed :
    (o : Option Value) (role : String)
    → chosen_role o ≡ ok role
    → contains role instruction_roles ≡ true
chosen_role-allowed none role h = allowed_default role h
chosen_role-allowed (some null) role h = allowed_default role h
chosen_role-allowed (some (boolean b)) role h = allowed_default role h
chosen_role-allowed (some (int n)) role h = allowed_default role h
chosen_role-allowed (some (float x)) role h = allowed_default role h
chosen_role-allowed (some (arr xs)) role h = absurd (ground (arith, h))
chosen_role-allowed (some (obj fs)) role h = absurd (ground (arith, h))
chosen_role-allowed (some (str s)) role h = elim (Bool-cases (contains s instruction_roles)) [
  | inl there ↦
      ap (λ t. contains t instruction_roles) (sym (ok-injective s role (rw there at h))) ∙ there
  | inr missing ↦ allowed_default role (rw missing at h)
]

pub with_instructions-IsHeaded :
    (r : ResolvedProfile) (sections : List String) (kept sent : List Fields)
    → with_instructions r sections kept ≡ ok sent
    → IsHeaded kept sent
unfolding with_instructions instruction_role
with_instructions-IsHeaded r [] kept sent h = inl (sym (ok-injective kept sent h))
with_instructions-IsHeaded r (s ∷ ss) kept sent h =
    let (role, found, last) = and_then-Ran (instruction_role r) _ sent h in
    inr (
      role,
      _,
      chosen_role-allowed (get_field "instruction_role" r.model.metadata) role found,
      sym (ok-injective _ sent last),
    )
