-- ===== src/Hub/Environment/RoundTrip.antt =====
-- The environment file of ops/hubctl.py: reading back what a template is filled in with.
use agent_ui.Prelude.{
  String, List, [], ◌∷◌, ◌++◌, map, All, All-append, Option, none, some, ◌≡◌, refl, arith, ◌==◌,
  string_eq, eq_iff, Option-cases, Bool-cases, inl, inr, ◌∙◌, ap, if◌then◌else◌, case_option,
  contains, is_some,
}
use agent_ui.Prelude.Text.{join_two, join, splitlines, strip, is_break}
use agent_ui.Prelude.Text.Trim.{starts_space, ends_space}
use agent_ui.Prelude.Text.LineBreaks.{IsLine, join_two-IsLine, splitlines-join, splitlines-lines}
use agent_ui.Prelude.Dict.{get, put, get-put}
use agent_ui.Hub.Environment.{
  Environment, env_line, value_of, template_key, parse_lines, parse_env, render_lines, seen_keys,
  other_keys, rendered_lines, render_env_template,
}
use agent_ui.Hub.Environment.OtherKeys.{
  AreHeld, other_keys-IsKey, contains-append, contains-other_keys,
}
use agent_ui.Hub.Environment.Lines.{
  IsKey, IsHeld, line-assignment, kept-assignment, template_key-IsKey,
}

value_of-IsHeld : (values : Environment) (k : String) → AreHeld values → IsHeld (value_of values k)
unfolding get starts_space ends_space
value_of-IsHeld [] k held = record { trim = record { starts = refl; ends = refl }; line = tt }
value_of-IsHeld ((j, v) ∷ rest) k held = elim (Bool-cases (j == k)) [
  | inl same ↦ rw same held.0.1
  | inr other ↦ rw other (value_of-IsHeld rest k held.1)
]

parse-line :
    (k v : String) (rest : List String) (d : Environment)
    → IsKey k
    → IsHeld v
    → parse_lines (env_line k v ∷ rest) d ≡ parse_lines rest (put k v d)
unfolding parse_lines
parse-line k v rest d key held =
    ap (λ o. parse_lines rest (case_option o d (λ (j, w). put j w d)))
      (line-assignment k v key held)

module _ (values : Environment) (held : AreHeld values) where
  -- Under a key that is written: its value; under any other: what was there.
  abbrev written : List String → String → Environment → Option String
  written keys k d = if contains k keys then some (value_of values k) else get k d

  get-put-written :
      (key k : String) (keys : List String) (d : Environment)
      → written keys k (put key (value_of values key) d) ≡ written (key ∷ keys) k d
  unfolding contains
  get-put-written key k keys d = elim (Bool-cases (key == k)) [
    | inl same ↦
        let is : key ≡ k = (eq_iff key k).0 same in
        ground (arith, get-put key k (value_of values key) d, is, eq_iff k key)
    | inr other ↦
        ground (arith, get-put key k (value_of values key) d, other, eq_iff k key, eq_iff key k)
  ]

  parse-keys :
      (keys : List String) (k : String) (d : Environment)
      → All IsKey keys
      → get k (parse_lines (map (λ key. env_line key (value_of values key)) keys) d)
        ≡ written keys k d
  unfolding parse_lines contains
  parse-keys [] k d clean = refl
  parse-keys (key ∷ keys) k d clean =
      ap (get k) (
        parse-line key (value_of values key) (map (λ key. env_line key (value_of values key)) keys)
          d clean.0 (value_of-IsHeld values key held))
      ∙ parse-keys keys k (put key (value_of values key) d) clean.1
      ∙ get-put-written key k keys d

  parse-rendered :
      (template keys : List String) (k : String) (d : Environment)
      → All IsLine template
      → All IsKey keys
      → get k (
          parse_lines
            (render_lines values template ++ map (λ key. env_line key (value_of values key)) keys)
            d)
        ≡ written (seen_keys template ++ keys) k d
  unfolding parse_lines render_lines seen_keys
  parse-rendered [] keys k d lines clean = parse-keys keys k d clean
  parse-rendered (raw ∷ rest) keys k d lines clean = elim (Option-cases (template_key raw)) [
    | inl kept ↦ rw (kept, kept-assignment raw kept) (parse-rendered rest keys k d lines.1 clean)
    | inr (key, filled) ↦
        rw
          (
            filled,
            line-assignment key (value_of values key) (template_key-IsKey raw key lines.0 filled)
                (value_of-IsHeld values key held),
          )
          (parse-rendered rest keys k (put key (value_of values key) d) lines.1 clean
            ∙ get-put-written key k (seen_keys rest ++ keys) d)
  ]

  env_line-IsLine : (key : String) → IsKey key → IsLine (env_line key (value_of values key))
  unfolding is_break
  env_line-IsLine key is_key =
      join_two-IsLine key (join_two "=" (value_of values key)) is_key.line
        (refl, (value_of-IsHeld values key held).line)

  render_lines-IsLine :
      (template : List String) → All IsLine template → All IsLine (render_lines values template)
  unfolding render_lines
  render_lines-IsLine [] lines = tt
  render_lines-IsLine (raw ∷ rest) lines = elim (Option-cases (template_key raw)) [
    | inl kept ↦ rw kept (lines.0, render_lines-IsLine rest lines.1)
    | inr (key, filled) ↦ rw filled (
      env_line-IsLine key (template_key-IsKey raw key lines.0 filled),
      render_lines-IsLine rest lines.1,
    )
  ]

  key_lines-IsLine :
      (keys : List String)
      → All IsKey keys
      → All IsLine (map (λ key. env_line key (value_of values key)) keys)
  key_lines-IsLine [] clean = tt
  key_lines-IsLine (key ∷ keys) clean = (env_line-IsLine key clean.0, key_lines-IsLine keys clean.1)

parse-joined :
    (lines : List String) (d : Environment)
    → All IsLine lines
    → parse_lines (splitlines (join_two (join "\n" lines) "\n")) d ≡ parse_lines lines d
unfolding parse_lines splitlines join is_break strip
parse-joined [] d each = refl
parse-joined (line ∷ lines) d each =
    ap (λ ls. parse_lines ls d) (splitlines-join line lines each.0 each.1)

-- The value under a key of what was written, for all keys that were.
written-get :
    (values : Environment) (held : AreHeld values) (seen : List String) (k : String)
    → written values held (seen ++ other_keys seen values) k []
      ≡ (if contains k seen then some (value_of values k) else get k values)
unfolding get
written-get values held seen k = elim (Bool-cases (contains k seen)) [
  | inl known ↦ rw (contains-append k seen (other_keys seen values), known) refl
  | inr new ↦
      rw
        (
          contains-append k seen (other_keys seen values),
          new,
          contains-other_keys k seen values new,
        )
        (given (get k values))
]
  where
    given : (o : Option String) → (if is_some o then some (case_option o "" (λ v. v)) else none) ≡ o
    given none = refl
    given (some v) = refl

-- Reading a rendered environment file gives, under every key of the template, the value that was
-- rendered or an empty one, and under any other key the value there is, if any, where each
-- rendered key can stand before an equals sign on a line and each value on one, without white
-- space at the ends.
pub render_env_template-parse :
    (template : String) (values : Environment) (k : String)
    → AreHeld values
    → get k (parse_env (render_env_template template values)) ≡ (
        if contains k (seen_keys (splitlines template))
        then some (value_of values k)
        else get k values)
unfolding parse_env render_env_template rendered_lines
render_env_template-parse template values k held =
    let lines = splitlines template in
    let seen = seen_keys lines in
    let keys = other_keys seen values in
    let clean = other_keys-IsKey seen values held in
    ap (get k) (
      parse-joined (rendered_lines lines values) [] (
        All-append IsLine (render_lines values lines) _
          (render_lines-IsLine values held lines (splitlines-lines template))
          (key_lines-IsLine values held keys clean)))
    ∙ parse-rendered values held lines keys k [] (splitlines-lines template) clean
    ∙ written-get values held seen k
