-- ===== src/Prelude/Text/Trim.antt =====
-- Texts without white space at their ends: what `strip` gives and leaves alone.
use Prim.Native.Nat.{ℕ}
use Prim.Native.Char.{code}
use Prim.Native.String.{String}
use mathlib.Core.Path.{◌≡◌, refl, ◌∙◌, ap}
use mathlib.Core.Logic.{inl, inr}
use mathlib.Core.Bool.{Bool, true, false, ◌&&◌, ◌||◌}
use native.Mathlib.Omega.{arith}
use agent_ui.Prelude.Tests.{if◌then◌else◌, Bool-cases}
use agent_ui.Prelude.Text.{
  is_empty, join_two, is_space, lstrip, rstrip, strip, starts_char, has_char,
}

unfoldable pub starts_space : String → Bool
unfolding is_space
starts_space String.[] = false
starts_space (String.◌∷◌ c s) = is_space (code c)

unfoldable pub ends_space : String → Bool
unfolding is_space
ends_space String.[] = false
ends_space (String.◌∷◌ c s) = if is_empty s then is_space (code c) else ends_space s

-- No white space at either end.
pub record IsTrim (s : String) : Type 0 where
  pub starts : starts_space s ≡ false
  pub ends : ends_space s ≡ false

pub or_left : (b c : Bool) → (b || c) ≡ false → b ≡ false
or_left b c h = ground (arith, h)

pub or_right : (b c : Bool) → (b || c) ≡ false → c ≡ false
or_right b c h = ground (arith, h)

and_false : (b : Bool) → (b && false) ≡ false
and_false b = ground arith

pub or_false : (b c : Bool) → b ≡ false → c ≡ false → (b || c) ≡ false
or_false b c h k = ground (arith, h, k)

lstrip-id : (s : String) → starts_space s ≡ false → lstrip s ≡ s
unfolding starts_space lstrip
lstrip-id String.[] h = refl
lstrip-id (String.◌∷◌ c s) h = rw h refl

rstrip-id : (s : String) → ends_space s ≡ false → rstrip s ≡ s
unfolding ends_space rstrip
rstrip-id String.[] h = refl
rstrip-id (String.◌∷◌ c String.[]) h = rw h refl
rstrip-id (String.◌∷◌ c (String.◌∷◌ d s)) h = rw (rstrip-id (String.◌∷◌ d s) h) refl

pub strip-id : (s : String) → IsTrim s → strip s ≡ s
unfolding strip
strip-id s h = ap rstrip (lstrip-id s h.starts) ∙ rstrip-id s h.ends

lstrip-starts : (s : String) → starts_space (lstrip s) ≡ false
unfolding starts_space lstrip
lstrip-starts String.[] = refl
lstrip-starts (String.◌∷◌ c s) = elim (Bool-cases (is_space (code c))) [
  | inl blank ↦ rw blank (lstrip-starts s)
  | inr other ↦ rw (other, other) refl
]

rstrip-ends : (s : String) → ends_space (rstrip s) ≡ false
unfolding ends_space rstrip
rstrip-ends String.[] = refl
rstrip-ends (String.◌∷◌ c s) = elim (Bool-cases (is_empty (rstrip s))) [
  | inl empty ↦ elim (Bool-cases (is_space (code c))) [
    | inl blank ↦ rw (empty, blank) refl
    | inr other ↦ rw (empty, other) (rw (empty, other) refl)
  ]
  | inr more ↦ rw more (rw more (rstrip-ends s))
]

-- What holds of the first character of a text holds after `rstrip`.
rstrip-first :
    (test : String → Bool) (s : String)
    → test "" ≡ false
    → ((c : Prim.Native.Char.Char) (t u : String) → test (String.◌∷◌ c t) ≡ test (String.◌∷◌ c u))
    → test s ≡ false
    → test (rstrip s) ≡ false
unfolding rstrip
rstrip-first test String.[] none_there first h = none_there
rstrip-first test (String.◌∷◌ c s) none_there first h =
    elim (Bool-cases (is_empty (rstrip s) && is_space (code c))) [
      | inl dropped ↦ rw dropped none_there
      | inr kept ↦ rw kept (first c (rstrip s) s ∙ h)
    ]

pub strip-IsTrim : (s : String) → IsTrim (strip s)
unfolding strip starts_space
strip-IsTrim s = record {
  starts = rstrip-first starts_space (lstrip s) refl (λ c t u. refl) (lstrip-starts s);
  ends = rstrip-ends (lstrip s);
}

lstrip-has_char : (n : ℕ) (s : String) → has_char n s ≡ false → has_char n (lstrip s) ≡ false
unfolding lstrip has_char
lstrip-has_char n String.[] h = refl
lstrip-has_char n (String.◌∷◌ c s) h = elim (Bool-cases (is_space (code c))) [
  | inl blank ↦ rw blank (lstrip-has_char n s (or_right _ _ h))
  | inr other ↦ rw other h
]

rstrip-has_char : (n : ℕ) (s : String) → has_char n s ≡ false → has_char n (rstrip s) ≡ false
unfolding rstrip has_char
rstrip-has_char n String.[] h = refl
rstrip-has_char n (String.◌∷◌ c s) h =
    elim (Bool-cases (is_empty (rstrip s) && is_space (code c))) [
      | inl dropped ↦ rw dropped refl
      | inr kept ↦ rw kept (or_false _ _ (or_left _ _ h) (rstrip-has_char n s (or_right _ _ h)))
    ]

-- Stripping brings no character.
pub strip-has_char : (n : ℕ) (s : String) → has_char n s ≡ false → has_char n (strip s) ≡ false
unfolding strip
strip-has_char n s h = rstrip-has_char n (lstrip s) (lstrip-has_char n s h)

-- The first character of a stripped text is that of the text from its first word on.
pub strip-starts_char :
    (n : ℕ) (s : String) → starts_char n (lstrip s) ≡ false → starts_char n (strip s) ≡ false
unfolding strip starts_char
strip-starts_char n s h = rstrip-first (starts_char n) (lstrip s) refl (λ c t u. refl) h

pub lstrip-prefix :
    (n : ℕ) (s t : String)
    → starts_char n (lstrip (join_two s t)) ≡ false
    → starts_char n (lstrip s) ≡ false
unfolding lstrip starts_char
lstrip-prefix n String.[] t h = refl
lstrip-prefix n (String.◌∷◌ c s) t h = elim (Bool-cases (is_space (code c))) [
  | inl blank ↦ rw blank (lstrip-prefix n s t (rw blank at h))
  | inr other ↦ rw other (rw other at h)
]

rstrip-keeps_first :
    (n : ℕ) (s : String)
    → is_space n ≡ false
    → starts_char n s ≡ true
    → starts_char n (rstrip s) ≡ true
unfolding rstrip starts_char
rstrip-keeps_first n String.[] solid h = absurd (ground (arith, h))
rstrip-keeps_first n (String.◌∷◌ c s) solid h =
    let same : code c ≡ n = ground (arith, h) in
    let kept : is_space (code c) ≡ false = ap is_space same ∙ solid in
    rw kept (rw (and_false (is_empty (rstrip s))) h)

-- A text that begins with a character that is no white space does so when it is stripped.
pub strip-keeps_first :
    (n : ℕ) (s : String)
    → is_space n ≡ false
    → starts_char n (lstrip s) ≡ true
    → starts_char n (strip s) ≡ true
unfolding strip
strip-keeps_first n s solid h = rstrip-keeps_first n (lstrip s) solid h
