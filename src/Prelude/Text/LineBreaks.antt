-- ===== src/Prelude/Text/LineBreaks.antt =====
-- Texts of one line, and the lines of a text that is put together from them.
use Prim.Native.Nat.{ℕ}
use Prim.Native.Char.{code}
use Prim.Native.String.{String}
use mathlib.Core.Path.{◌≡◌, refl, ◌∙◌, ap}
use mathlib.Core.Logic.{inl, inr}
use mathlib.Core.List.{List, [], ◌∷◌}
use mathlib.Core.Bool.{false, ◌&&◌}
use native.Mathlib.Omega.{arith}
use agent_ui.Prelude.Tests.{nat_beq, Bool-cases}
use agent_ui.Prelude.Lists.{All}
use agent_ui.Prelude.Text.{
  is_empty, is_space, is_break, join_two, join, onto_first, splitlines, starts_newline, lstrip,
  rstrip, strip,
}

-- No character at which a line ends.
abbrev pub IsLine : String → Type 0
IsLine String.[] = Unit
IsLine (String.◌∷◌ c s) = (is_break (code c) ≡ false) × IsLine s

no_return : (n : ℕ) → is_break n ≡ false → nat_beq n 13 ≡ false
unfolding is_break
no_return n h = ground (arith, h)

pub join_two_assoc : (s t u : String) → join_two (join_two s t) u ≡ join_two s (join_two t u)
join_two_assoc String.[] t u = refl
join_two_assoc (String.◌∷◌ c s) t u = ap (String.◌∷◌ c) (join_two_assoc s t u)

splitlines-line :
    (line rest : String)
    → IsLine line
    → splitlines (join_two line (join_two "\n" rest)) ≡ line ∷ splitlines rest
unfolding splitlines is_break
splitlines-line String.[] rest h = refl
splitlines-line (String.◌∷◌ c s) rest h =
    rw (no_return (code c) h.0, h.0, splitlines-line s rest h.1) refl

-- The lines of a file that is written line by line; a file without lines has one empty line.
pub splitlines-join :
    (line : String) (lines : List String)
    → IsLine line
    → All IsLine lines
    → splitlines (join_two (join "\n" (line ∷ lines)) "\n") ≡ line ∷ lines
unfolding join splitlines
splitlines-join line [] h hs = splitlines-line line "" h
splitlines-join line (next ∷ lines) h hs =
    ap splitlines (
      join_two_assoc line (join_two "\n" (join "\n" (next ∷ lines))) "\n"
      ∙ ap (join_two line) (join_two_assoc "\n" (join "\n" (next ∷ lines)) "\n"))
    ∙ splitlines-line line (join_two (join "\n" (next ∷ lines)) "\n") h
    ∙ ap (λ ls. line ∷ ls) (splitlines-join next lines hs.0 hs.1)

onto_first-lines :
    (c : Prim.Native.Char.Char) (lines : List String)
    → is_break (code c) ≡ false
    → All IsLine lines
    → All IsLine (onto_first (String.◌∷◌ c String.[]) lines)
onto_first-lines c [] h hs = ((h, tt), tt)
onto_first-lines c (line ∷ lines) h hs = ((h, hs.0), hs.1)

pub splitlines-lines : (s : String) → All IsLine (splitlines s)
unfolding splitlines
splitlines-lines String.[] = tt
splitlines-lines (String.◌∷◌ c s) = elim (Bool-cases (nat_beq (code c) 13 && starts_newline s)) [
  | inl pair ↦ rw pair (splitlines-lines s)
  | inr single ↦ elim (Bool-cases (is_break (code c))) [
    | inl ended ↦ rw (single, ended) (tt, splitlines-lines s)
    | inr inside ↦
        rw (single, inside) (onto_first-lines c (splitlines s) inside (splitlines-lines s))
  ]
]

pub join_two-IsLine : (s t : String) → IsLine s → IsLine t → IsLine (join_two s t)
join_two-IsLine String.[] t hs ht = ht
join_two-IsLine (String.◌∷◌ c s) t hs ht = (hs.0, join_two-IsLine s t hs.1 ht)

pub prefix-IsLine : (s t : String) → IsLine (join_two s t) → IsLine s
prefix-IsLine String.[] t h = tt
prefix-IsLine (String.◌∷◌ c s) t h = (h.0, prefix-IsLine s t h.1)

lstrip-IsLine : (s : String) → IsLine s → IsLine (lstrip s)
unfolding lstrip
lstrip-IsLine String.[] h = tt
lstrip-IsLine (String.◌∷◌ c s) h = elim (Bool-cases (is_space (code c))) [
  | inl blank ↦ rw blank (lstrip-IsLine s h.1)
  | inr other ↦ rw other h
]

rstrip-IsLine : (s : String) → IsLine s → IsLine (rstrip s)
unfolding rstrip
rstrip-IsLine String.[] h = tt
rstrip-IsLine (String.◌∷◌ c s) h = elim (Bool-cases (is_empty (rstrip s) && is_space (code c))) [
  | inl dropped ↦ rw dropped tt
  | inr kept ↦ rw kept (h.0, rstrip-IsLine s h.1)
]

pub strip-IsLine : (s : String) → IsLine s → IsLine (strip s)
unfolding strip
strip-IsLine s h = rstrip-IsLine (lstrip s) (lstrip-IsLine s h)
