-- ===== src/Hub/Environment/OtherKeys.antt =====
-- The keys that ops/hubctl.py adds behind a template.
use agent_ui.Prelude.{
  String, true, false, ◌||◌, List, [], ◌∷◌, ◌++◌, All, ◌≡◌, refl, arith, ◌==◌, string_eq, eq_iff,
  Bool-cases, inl, inr, ◌∙◌, ap, contains, is_some,
}
use agent_ui.Prelude.Text.{text_before}
use agent_ui.Prelude.Dict.{get}
use agent_ui.Hub.Environment.{Environment, insert_text, other_keys}
use agent_ui.Hub.Environment.Lines.{IsKey, IsHeld}

-- Keys that a line can assign to, with values that it can hold.
abbrev pub AreHeld : Environment → Type 0
AreHeld = All (λ (k, v). IsKey k × IsHeld v)

insert-IsKey :
    (s : String) (ts : List String) → IsKey s → All IsKey ts → All IsKey (insert_text s ts)
unfolding insert_text
insert-IsKey s [] h hs = (h, tt)
insert-IsKey s (t ∷ ts) h hs = elim (Bool-cases (text_before t s)) [
  | inl before ↦ rw before (hs.0, insert-IsKey s ts h hs.1)
  | inr here ↦ rw here (h, hs)
]

pub other_keys-IsKey :
    (seen : List String) (values : Environment)
    → AreHeld values
    → All IsKey (other_keys seen values)
unfolding other_keys
other_keys-IsKey seen [] held = tt
other_keys-IsKey seen ((k, v) ∷ rest) held = elim (Bool-cases (contains k seen)) [
  | inl known ↦ rw known (other_keys-IsKey seen rest held.1)
  | inr other ↦ rw other (insert-IsKey k _ held.0.0 (other_keys-IsKey seen rest held.1))
]

pub contains-append :
    (k : String) (xs ys : List String) → contains k (xs ++ ys) ≡ (contains k xs || contains k ys)
unfolding contains
contains-append k [] ys = refl
contains-append k (x ∷ xs) ys = ground (arith, contains-append k xs ys)

contains-insert :
    (k s : String) (ts : List String) → contains k (insert_text s ts) ≡ (k == s || contains k ts)
unfolding contains insert_text
contains-insert k s [] = refl
contains-insert k s (t ∷ ts) = elim (Bool-cases (text_before t s)) [
  | inl before ↦ rw before (ground (arith, contains-insert k s ts))
  | inr here ↦ rw here refl
]

or_same : (k j : String) (ts : List String) → (j == k) ≡ true → (k == j || contains k ts) ≡ true
or_same k j ts h = ground (arith, eq_iff k j, eq_iff j k, h)

or_other :
    (k j : String) (ts : List String) → (j == k) ≡ false → (k == j || contains k ts) ≡ contains k ts
or_other k j ts h = ground (arith, eq_iff k j, eq_iff j k, h)

pub contains-other_keys :
    (k : String) (seen : List String) (values : Environment)
    → contains k seen ≡ false
    → contains k (other_keys seen values) ≡ is_some (get k values)
unfolding other_keys get contains
contains-other_keys k seen [] absent = refl
contains-other_keys k seen ((j, v) ∷ rest) absent = elim (Bool-cases (j == k)) [
  | inl same ↦
      let is : contains j seen ≡ false = ap (λ t. contains t seen) ((eq_iff j k).0 same) ∙ absent in
      rw (is, same)
        (contains-insert k j (other_keys seen rest) ∙ or_same k j (other_keys seen rest) same)
  | inr other ↦ elim (Bool-cases (contains j seen)) [
    | inl known ↦ rw (known, other) (contains-other_keys k seen rest absent)
    | inr new ↦
        rw (new, other)
          (contains-insert k j (other_keys seen rest)
            ∙ or_other k j (other_keys seen rest) other
            ∙ contains-other_keys k seen rest absent)
  ]
]
