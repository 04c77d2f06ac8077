-- ===== src/Regex.antt =====
-- The regular expressions of memory_service.py and routing.py, as Python's `re` reads them: a
-- sequence of items, searched for from every place of a text.
use Prim.Native.Nat.{ℕ, zero, suc, ◌+◌}
use agent_ui.Prelude.{
  String, Bool, true, false, ◌&&◌, ◌||◌, List, [], ◌∷◌, ◌++◌, map, Option, none, some, any, nat_beq,
  leb, if◌then◌else◌,
}
use agent_ui.Prelude.Text.{codes}

-- A place in a text: the character before it, and the text from there.
pub record Place : Type 0 where
  pub before : Option ℕ
  pub rest : List ℕ

pub data Item : Type 0 where
  -- one character of a class
  one : (ℕ → Bool) → Item
  -- any number of characters of a class
  many : (ℕ → Bool) → Item
  -- one of some texts, equal up to a fold of characters
  alt : (ℕ → ℕ) → List (List ℕ) → Item
  -- `\b`, for a class of word characters
  boundary : (ℕ → Bool) → Item

after_one : (ℕ → Bool) → Option ℕ → List ℕ → List Place
after_one p before [] = []
after_one p before (c ∷ cs) = if p c then record { before = some c; rest = cs } ∷ [] else []

after_many : (ℕ → Bool) → Option ℕ → List ℕ → List Place
after_many p before [] = record { before = before; rest = [] } ∷ []
after_many p before (c ∷ cs) =
    record { before = before; rest = c ∷ cs } ∷ (if p c then after_many p (some c) cs else [])

after_text : (ℕ → ℕ) → List ℕ → Option ℕ → List ℕ → List Place
after_text fold [] before cs = record { before = before; rest = cs } ∷ []
after_text fold (x ∷ xs) before [] = []
after_text fold (x ∷ xs) before (c ∷ cs) =
    if nat_beq (fold c) (fold x) then after_text fold xs (some c) cs else []

after_alt : (ℕ → ℕ) → List (List ℕ) → Place → List Place
unfolding after_text
after_alt fold [] q = []
after_alt fold (xs ∷ xss) q = after_text fold xs q.before q.rest ++ after_alt fold xss q

abbrev word_before : (ℕ → Bool) → Option ℕ → Bool
word_before word none = false
word_before word (some c) = word c

abbrev word_here : (ℕ → Bool) → List ℕ → Bool
word_here word [] = false
word_here word (c ∷ cs) = word c

-- The places where an item may end.
unfoldable pub ends : Item → Place → List Place
unfolding after_one after_many after_alt
ends (one p) q = after_one p q.before q.rest
ends (many p) q = after_many p q.before q.rest
ends (alt fold xss) q = after_alt fold xss q
ends (boundary word) q =
    if word_before word q.before
    then (if word_here word q.rest then [] else q ∷ [])
    else (if word_here word q.rest then q ∷ [] else [])

-- Whether the items match from a place on.
unfoldable pub matches : List Item → Place → Bool
unfolding ends any
matches [] q = true
matches (i ∷ is) q = any (matches is) (ends i q)

search_from : List Item → Option ℕ → List ℕ → Bool
unfolding matches
search_from is before [] = matches is (record { before = before; rest = [] })
search_from is before (c ∷ cs) =
    matches is (record { before = before; rest = c ∷ cs }) || search_from is (some c) cs

-- `bool(pattern.search(text))`
unfoldable pub found_in : List Item → String → Bool
unfolding search_from
found_in is text = search_from is none (codes text)

-- `{n,}` of a class.
abbrev pub at_least : ℕ → (ℕ → Bool) → List Item
at_least zero p = many p ∷ []
at_least (suc n) p = one p ∷ at_least n p

-- Exactly `n` characters of a class.
abbrev pub exactly : ℕ → (ℕ → Bool) → List Item
exactly zero p = []
exactly (suc n) p = one p ∷ exactly n p

abbrev pub texts : List String → List (List ℕ)
texts = map codes

-- Case is kept.
abbrev pub exact : ℕ → ℕ
exact c = c

-- `re.IGNORECASE` against an ASCII pattern: the long s, the Kelvin sign, the capital I with a dot and
-- the small i without one fold to ASCII letters.
abbrev pub ignore_case : ℕ → ℕ
ignore_case c =
    if leb b'A' c && leb c b'Z'
    then c + 32
    else if nat_beq c 0x17f
    then b's'
    else if nat_beq c 0x212a
    then b'k'
    else if nat_beq c 0x130 || nat_beq c 0x131
    then b'i'
    else c
