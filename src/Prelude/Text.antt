-- ===== src/Prelude/Text.antt =====
-- Python's `str` methods that the program uses, over native strings read character by character.
pub mod Trim
pub mod LineBreaks
use Prim.Native.Nat.{ℕ, suc}
use Prim.Native.Char.{code}
use Prim.Native.String.{String}
use mathlib.Core.Bool.{Bool, true, false, ◌&&◌, ◌||◌}
use mathlib.Core.List.{List, [], ◌∷◌}
use text.Mathlib.Text.{starts_with}
use agent_ui.Prelude.Tests.{leb, ltb, nat_beq, if◌then◌else◌}

-- The code points of a text.
abbrev pub codes : String → List ℕ
codes String.[] = []
codes (String.◌∷◌ c s) = code c ∷ codes s

-- `len(s)`: the number of characters.
abbrev pub text_length : String → ℕ
text_length String.[] = 0
text_length (String.◌∷◌ c s) = suc (text_length s)

-- `not s`
abbrev pub is_empty : String → Bool
is_empty String.[] = true
is_empty (String.◌∷◌ c s) = false

abbrev pub join_two : String → String → String
join_two String.[] t = t
join_two (String.◌∷◌ c s) t = String.◌∷◌ c (join_two s t)

-- `str.isspace` of one character, for every code point.
unfoldable pub is_space : ℕ → Bool
is_space n =
    leb 9 n && leb n 13
    || leb 28 n && leb n 32
    || nat_beq n 0x85
    || nat_beq n 0xa0
    || nat_beq n 0x1680
    || leb 0x2000 n && leb n 0x200a
    || nat_beq n 0x2028
    || nat_beq n 0x2029
    || nat_beq n 0x202f
    || nat_beq n 0x205f
    || nat_beq n 0x3000

unfoldable pub lstrip : String → String
lstrip String.[] = String.[]
lstrip (String.◌∷◌ c s) = if is_space (code c) then lstrip s else String.◌∷◌ c s

unfoldable pub rstrip : String → String
rstrip String.[] = String.[]
rstrip (String.◌∷◌ c s) =
    let r = rstrip s in if is_empty r && is_space (code c) then String.[] else String.◌∷◌ c r

-- `s.strip()`
unfoldable pub strip : String → String
unfolding lstrip rstrip
strip s = rstrip (lstrip s)

abbrev emit : String → List String → List String
emit w ws = if is_empty w then ws else w ∷ ws

-- The word that begins the text, and the words behind it.
words : String → String × List String
words String.[] = ("", [])
words (String.◌∷◌ c s) =
    let (w, ws) = words s in if is_space (code c) then ("", emit w ws) else (String.◌∷◌ c w, ws)

-- `s.split()`
unfoldable pub split : String → List String
unfolding words
split s = let (w, ws) = words s in emit w ws

-- `sep.join(xs)`
unfoldable pub join : String → List String → String
join sep [] = ""
join sep (x ∷ []) = x
join sep (x ∷ y ∷ ys) = join_two x (join_two sep (join sep (y ∷ ys)))

-- `s[:n]`
unfoldable pub take_text : ℕ → String → String
take_text n String.[] = String.[]
take_text ℕ.zero (String.◌∷◌ c s) = String.[]
take_text (suc n) (String.◌∷◌ c s) = String.◌∷◌ c (take_text n s)

-- `s.startswith(t)`
abbrev pub text_starts : String → String → Bool
text_starts s t = starts_with s t

abbrev onto_first : String → List String → List String
onto_first w [] = w ∷ []
onto_first w (x ∷ xs) = join_two w x ∷ xs

-- `s.split(c)`, for one character
unfoldable pub split_on : ℕ → String → List String
split_on sep String.[] = "" ∷ []
split_on sep (String.◌∷◌ c s) =
    let rest = split_on sep s in
    if nat_beq (code c) sep then "" ∷ rest else onto_first (String.◌∷◌ c String.[]) rest

-- The characters at which `str.splitlines` ends a line.
unfoldable pub is_break : ℕ → Bool
is_break n =
    leb 10 n && leb n 13
    || leb 28 n && leb n 30
    || nat_beq n 0x85
    || nat_beq n 0x2028
    || nat_beq n 0x2029

abbrev starts_newline : String → Bool
starts_newline String.[] = false
starts_newline (String.◌∷◌ c s) = nat_beq (code c) 10

-- `s.splitlines()`
unfoldable pub splitlines : String → List String
unfolding is_break
splitlines String.[] = []
splitlines (String.◌∷◌ c s) =
    let rest = splitlines s in
    if nat_beq (code c) 13 && starts_newline s
    then rest
    else if is_break (code c)
    then "" ∷ rest
    else onto_first (String.◌∷◌ c String.[]) rest

-- `c in s`, for one character
unfoldable pub has_char : ℕ → String → Bool
has_char n String.[] = false
has_char n (String.◌∷◌ c s) = nat_beq (code c) n || has_char n s

-- `s < t`
unfoldable pub text_before : String → String → Bool
text_before s String.[] = false
text_before String.[] (String.◌∷◌ d t) = true
text_before (String.◌∷◌ c s) (String.◌∷◌ d t) =
    ltb (code c) (code d) || nat_beq (code c) (code d) && text_before s t

-- `s.startswith(c)`, for one character
unfoldable pub starts_char : ℕ → String → Bool
starts_char n String.[] = false
starts_char n (String.◌∷◌ c s) = nat_beq (code c) n
