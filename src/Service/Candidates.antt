-- ===== src/Service/Candidates.antt =====
-- `_safe_candidates` and the dictionaries that the service returns.
use agent_ui.Prelude.{
  ℕ, String, Bool, true, false, ◌&&◌, not, List, [], ◌∷◌, Option, none, some, Result, ok, raise,
  and_then, ltb, contains, take, if◌then◌else◌, string_eq,
}
use agent_ui.Prelude.Text.{strip, split, join, text_length}
use agent_ui.Prelude.Json.{
  Value, Fields, Float, pos, null, boolean, int, float, str, arr, obj, end, field, nan, plus_inf,
  minus_inf, finite, float_zero, float_half, float_one, is_finite, get_field, truthy, leb_ℤ,
}
use agent_ui.Host.{Host, lower}
use agent_ui.Secrets.{contains_probable_secret}
use agent_ui.Provider.{Error, other_error}

-- `float(v)`: a value, a `TypeError` or `ValueError`, or an `OverflowError`.
pub data Converted : Type 0 where
  value : Float → Converted
  refused : Converted
  overflowed : Converted

unfoldable pub to_float : Host → Value → Converted
to_float h null = refused
to_float h (boolean true) = value float_one
to_float h (boolean false) = value float_zero
to_float h (int n) = elim (h.float_of_int n) [ none ↦ overflowed | some x ↦ value x ]
to_float h (float x) = value x
to_float h (str s) = elim (h.float_of_text s) [ none ↦ refused | some x ↦ value x ]
to_float h (arr xs) = refused
to_float h (obj fs) = refused

abbrev pub overflow_message : String
overflow_message = "int too large to convert to float"

-- `str(v)`
unfoldable pub to_text : Host → Value → String
to_text h (str s) = s
to_text h v = h.value_text v

abbrev pub or_half : Option Value → Value
or_half none = float float_half
or_half (some v) = v

-- `if not math.isfinite(importance): importance = 0.5`
abbrev finite_or_half : Float → Float
finite_or_half x = if is_finite x then x else float_half

-- `float(v)` where nothing catches what it raises.
unfoldable pub float_or_raise : Host → Value → Result Error Float
unfolding to_float
float_or_raise h v = elim (to_float h v) [
  | value x ↦ ok x
  | refused ↦ raise (other_error "could not convert to float")
  | overflowed ↦ raise (other_error overflow_message)
]

-- The importance of a candidate before it is clamped.
unfoldable pub candidate_importance : Host → Fields → Result Error Float
unfolding to_float
candidate_importance h candidate = elim (to_float h (or_half (get_field "importance" candidate))) [
  | value x ↦ ok (finite_or_half x)
  | refused ↦ ok float_half
  | overflowed ↦ raise (other_error overflow_message)
]

-- `max(0.0, min(x, 1.0))`
unfoldable pub clamp : Float → Float
clamp (finite n) =
    if leb_ℤ n (pos 0)
    then float_zero
    else if leb_ℤ (elim float_one [ finite k ↦ k | _ ↦ pos 0 ]) n
    then float_one
    else finite n
clamp nan = nan
clamp plus_inf = float_one
clamp minus_inf = float_zero

-- `str(candidate.get("kind") or "fact")`
unfoldable pub candidate_kind : Host → Fields → String
unfolding to_text
candidate_kind h candidate = elim (get_field "kind" candidate) [
  | none ↦ "fact"
  | some v ↦ if truthy v then to_text h v else "fact"
]

pub record SafeCandidate : Type 0 where
  pub content : String
  pub kind : String
  pub importance : Float
  pub normalized : String

-- `" ".join(content.lower().split())`
unfoldable pub normalize : Host → String → String
normalize h content = join " " (split (lower h content))

-- A text content that is not skipped: long enough, new, and without a probable secret.
abbrev pub is_kept : Host → List String → String → Bool
is_kept h seen content =
    not (ltb (text_length content) 3)
    && not (contains (normalize h content) seen)
    && not (contains_probable_secret h.is_word content)

-- The loop of `_safe_candidates`.
unfoldable pub safe_loop : Host → List String → List Fields → Result Error (List SafeCandidate)
unfolding candidate_importance candidate_kind normalize clamp
safe_loop h seen [] = ok []
safe_loop h seen (candidate ∷ rest) = elim (get_field "content" candidate) [
  | some (str raw) ↦
      let content = strip raw in
      let normalized = normalize h content in
      elim (is_kept h seen content) [
        | false ↦ safe_loop h seen rest
        | true ↦ and_then (candidate_importance h candidate) λ importance.
            and_then (safe_loop h (normalized ∷ seen) rest) λ later. ok (
              (record {
                content = content;
                kind = candidate_kind h candidate;
                importance = clamp importance;
                normalized = normalized;
              })
              ∷ later)
      ]
  | _ ↦ safe_loop h seen rest
]

unfoldable pub safe_candidates : Host → ℕ → List Fields → Result Error (List SafeCandidate)
unfolding safe_loop
safe_candidates h max_candidates candidates = safe_loop h [] (take max_candidates candidates)

-- The metadata dictionary of a candidate.
abbrev pub candidate_metadata : SafeCandidate → Fields
candidate_metadata c = field "kind" (str c.kind) (field "importance" (float c.importance) end)
