-- ===== src/Hub/Environment/Lines.antt =====
-- The lines of an environment file of ops/hubctl.py: what is written is what is read.
use Prim.Native.Char.{Char, code}
use agent_ui.Prelude.{
  String, true, false, ◌||◌, Option, none, some, ◌≡◌, refl, arith, string_eq, Option-cases,
  Bool-cases, inl, inr, sym, ◌∙◌, ap, subst, nat_beq, case_option,
}
use agent_ui.Prelude.Text.{is_empty, is_space, join_two, strip, lstrip, starts_char, has_char}
use agent_ui.Prelude.Text.Trim.{
  IsTrim, starts_space, ends_space, strip-id, strip-IsTrim, strip-has_char, strip-starts_char,
  strip-keeps_first, lstrip-prefix, or_left, or_right, or_false,
}
use agent_ui.Prelude.Text.LineBreaks.{IsLine, prefix-IsLine, strip-IsLine}
use agent_ui.Hub.Registration.{split_once}
use agent_ui.Hub.Environment.{assignment, env_line, template_key}

-- A name that a line can assign to.
pub record IsKey (k : String) : Type 0 where
  pub trim : IsTrim k
  pub line : IsLine k
  pub no_equals : has_char b'=' k ≡ false
  pub no_comment : starts_char b'#' k ≡ false

-- A value that a line can hold.
pub record IsHeld (v : String) : Type 0 where
  pub trim : IsTrim v
  pub line : IsLine v

some-injective {ℓ} : {A : Type ℓ} (a b : A) → some a ≡ some b → a ≡ b
some-injective a b h = ap (λ o. case_option o a (λ x. x)) h

split_once-line : (k v : String) → has_char b'=' k ≡ false → split_once (env_line k v) ≡ some (k, v)
unfolding split_once has_char
split_once-line String.[] v h = refl
split_once-line (String.◌∷◌ c s) v h =
    rw
      (
        or_left (nat_beq (code c) b'=') (has_char b'=' s) h,
        split_once-line s v (or_right (nat_beq (code c) b'=') (has_char b'=' s) h),
      )
      refl

-- Where a text is split.
split_once-parts :
    (s p q : String)
    → split_once s ≡ some (p, q)
    → (d : Char) × (s ≡ join_two p (String.◌∷◌ d q)) × (has_char b'=' p ≡ false)
unfolding split_once has_char
split_once-parts String.[] p q h = absurd (ground (arith, h))
split_once-parts (String.◌∷◌ c s) p q h = elim (Bool-cases (nat_beq (code c) b'=')) [
  | inl here ↦
      let same = some-injective ("", s) (p, q) (rw here at h) in
      let no_key : "" ≡ p = ap (λ r. r.0) same in
      (
        c,
        (λ i. join_two (no_key i) (String.◌∷◌ c ((ap (λ r. r.1) same) i))),
        ap (has_char b'=') (sym no_key),
      )
  | inr later ↦ elim (Option-cases (split_once s)) [
    | inl absent ↦ absurd (ground (arith, rw (later, absent) at h))
    | inr ((k, v), there) ↦
        let same = some-injective (String.◌∷◌ c k, v) (p, q) (rw (later, there) at h) in
        let (d, parts, clean) = split_once-parts s k v there in
        (
          d,
          ap (String.◌∷◌ c) parts
              ∙ (λ i. join_two ((ap (λ r. r.0) same) i) (String.◌∷◌ d ((ap (λ r. r.1) same) i))),
          subst (λ t. has_char b'=' t ≡ false) (ap (λ r. r.0) same) (or_false _ _ later clean),
        )
  ]
]

split_once-none : (s : String) → (split_once s ≡ none) → has_char b'=' s ≡ false
unfolding split_once has_char
split_once-none String.[] h = refl
split_once-none (String.◌∷◌ c s) h = elim (Bool-cases (nat_beq (code c) b'=')) [
  | inl here ↦ absurd (ground (arith, rw here at h))
  | inr later ↦ elim (Option-cases (split_once s)) [
    | inl absent ↦ or_false _ _ later (split_once-none s absent)
    | inr ((k, v), there) ↦ absurd (ground (arith, rw (later, there) at h))
  ]
]

none-split_once : (s : String) → has_char b'=' s ≡ false → split_once s ≡ none
unfolding split_once has_char
none-split_once String.[] h = refl
none-split_once (String.◌∷◌ c s) h =
    rw
      (
        or_left (nat_beq (code c) b'=') (has_char b'=' s) h,
        none-split_once s (or_right (nat_beq (code c) b'=') (has_char b'=' s) h),
      )
      refl

line-starts : (k v : String) → starts_space k ≡ false → starts_space (env_line k v) ≡ false
unfolding starts_space is_space
line-starts String.[] v h = refl
line-starts (String.◌∷◌ c s) v h = h

line-ends : (k v : String) → ends_space v ≡ false → ends_space (env_line k v) ≡ false
unfolding ends_space is_space
line-ends String.[] String.[] h = refl
line-ends String.[] (String.◌∷◌ c s) h = h
line-ends (String.◌∷◌ c String.[]) v h = line-ends String.[] v h
line-ends (String.◌∷◌ c (String.◌∷◌ d s)) v h = line-ends (String.◌∷◌ d s) v h

line-filled : (k v : String) → is_empty (env_line k v) ≡ false
line-filled String.[] v = refl
line-filled (String.◌∷◌ c s) v = refl

line-no_comment :
    (k v : String) → starts_char b'#' k ≡ false → starts_char b'#' (env_line k v) ≡ false
unfolding starts_char
line-no_comment String.[] v h = refl
line-no_comment (String.◌∷◌ c s) v h = h

-- A written line is read as what was written.
pub line-assignment :
    (k v : String) → IsKey k → IsHeld v → assignment (strip (env_line k v)) ≡ some (k, v)
line-assignment k v key held =
    rw
      (
        strip-id (env_line k v) (record {
          starts = line-starts k v key.trim.starts;
          ends = line-ends k v held.trim.ends;
        }),
        line-filled k v,
        line-no_comment k v key.no_comment,
        split_once-line k v key.no_equals,
        strip-id k key.trim,
        strip-id v held.trim,
      )
      refl

is_empty-text : (s : String) → is_empty s ≡ true → s ≡ ""
is_empty-text String.[] h = refl
is_empty-text (String.◌∷◌ c s) h = absurd (ground (arith, h))

skipped-none : (s : String) → starts_char b'#' s ≡ true → assignment s ≡ none
skipped-none s h = elim (Bool-cases (is_empty s)) [
  | inl empty ↦ rw empty refl
  | inr filled ↦ rw (filled, h) refl
]

no_equals-none : (s : String) → split_once s ≡ none → assignment s ≡ none
no_equals-none s h = elim (Bool-cases (is_empty s || starts_char b'#' s)) [
  | inl skipped ↦ rw skipped refl
  | inr read ↦ rw (read, h) refl
]

case_option-none :
    (o : Option (String × String)) (f : String × String → String)
    → case_option o none (λ r. some (f r)) ≡ none
    → o ≡ none
case_option-none none f h = refl
case_option-none (some r) f h = absurd (ground (arith, h))

-- A line of a template that is not filled in assigns nothing.
pub kept-assignment : (raw : String) → template_key raw ≡ none → assignment (strip raw) ≡ none
unfolding template_key strip lstrip is_space
kept-assignment raw h = elim (Bool-cases (is_empty raw || starts_char b'#' (lstrip raw))) [
  | inl skipped ↦ elim (Bool-cases (is_empty raw)) [
    | inl empty ↦ subst (λ t. assignment (strip t) ≡ none) (sym (is_empty-text raw empty)) refl
    | inr filled ↦ skipped-none (strip raw) (strip-keeps_first b'#' raw refl (rw filled at skipped))
  ]
  | inr read ↦ no_equals-none (strip raw) (
      none-split_once (strip raw)
        (strip-has_char b'=' raw (split_once-none raw (case_option-none _ _ (rw read at h)))))
]

-- The key of a line of a template can be written.
pub template_key-IsKey : (raw k : String) → IsLine raw → template_key raw ≡ some k → IsKey k
unfolding template_key
template_key-IsKey raw k line h =
    elim (Bool-cases (is_empty raw || starts_char b'#' (lstrip raw))) [
      | inl skipped ↦ absurd (ground (arith, rw skipped at h))
      | inr read ↦ elim (Option-cases (split_once raw)) [
        | inl absent ↦ absurd (ground (arith, rw (read, absent) at h))
        | inr ((p, q), there) ↦
            let is_key : strip p ≡ k = some-injective (strip p) k (rw (read, there) at h) in
            let (d, parts, clean) = split_once-parts raw p q there in
            subst IsKey is_key record {
              trim = strip-IsTrim p;
              line = strip-IsLine p (prefix-IsLine p (String.◌∷◌ d q) (subst IsLine parts line));
              no_equals = strip-has_char b'=' p clean;
              no_comment = strip-starts_char b'#' p (
                  lstrip-prefix b'#' p (String.◌∷◌ d q)
                    (subst (λ t. starts_char b'#' (lstrip t) ≡ false) parts (or_right _ _ read)));
            }
      ]
    ]
