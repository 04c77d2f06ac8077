-- ===== src/Prelude/Dict.antt =====
-- Python's `dict`: an association list in insertion order, as iteration sees it. Assignment to a
-- key that is present keeps the key's place.
use mathlib.Core.Path.{◌≡◌, refl}
use mathlib.Core.Logic.{◌≢◌, inl, inr}
use mathlib.Core.List.{List, [], ◌∷◌, ◌++◌, map}
use mathlib.Core.Bool.{Bool, true, false}
use mathlib.Core.Option.{Option, none, some}
use native.Mathlib.Omega.{arith}
use agent_ui.Prelude.Tests.{if◌then◌else◌, Bool-cases, is_some}
use agent_ui.Prelude.Classes.{Eq, ◌==◌}
use agent_ui.Prelude.Lists.{find}

abbrev pub Dict {ℓ κ} : Type ℓ → Type κ → Type (ℓ ⊔ κ)
Dict K V = List (K × V)

module _ {ℓ κ} {K : Type ℓ} {V : Type κ} where
  -- `d.values()`
  abbrev pub values : Dict K V → List V
  values = map (λ p. p.1)

module _ {ℓ κ} {K : Type ℓ} {V : Type κ} ⦃e : Eq K⦄ where
  -- `d.get(k)`
  unfoldable pub get : K → Dict K V → Option V
  get k [] = none
  get k ((j, v) ∷ d) = if j == k then some v else get k d

  -- `d[k] = v`
  unfoldable pub put : K → V → Dict K V → Dict K V
  put k v [] = (k, v) ∷ []
  put k v ((j, w) ∷ d) = if j == k then (j, v) ∷ d else (j, w) ∷ put k v d

  -- No key twice.
  abbrev pub IsDict : Dict K V → Type κ
  IsDict [] = Unit
  IsDict ((k, v) ∷ d) = (get k d ≡ none) × IsDict d

  pub get-put :
      (k j : K) (v : V) (d : Dict K V) → get j (put k v d) ≡ (if k == j then some v else get j d)
  unfolding get put
  get-put k j v [] = refl
  get-put k j v ((i, w) ∷ d) =
      ground (arith, e.beq_iff k j, e.beq_iff i k, e.beq_iff i j, get-put k j v d)

  pub get-put_self : (k : K) (v : V) (d : Dict K V) → get k (put k v d) ≡ some v
  get-put_self k v d = ground (arith, get-put k k v d, e.beq_iff k k)

  pub get-put_ne : (k j : K) (v : V) (d : Dict K V) → k ≢ j → get j (put k v d) ≡ get j d
  get-put_ne k j v d h = ground (arith, get-put k j v d, e.beq_iff k j)

  pub put-IsDict : (k : K) (v : V) (d : Dict K V) → IsDict d → IsDict (put k v d)
  unfolding put get
  put-IsDict k v [] h = (refl, tt)
  put-IsDict k v ((j, w) ∷ d) h = elim (Bool-cases (j == k)) [
    | inl same ↦ rw same (h.0, h.1)
    | inr other ↦
        rw other
          (ground (arith, get-put k j v d, e.beq_iff k j, e.beq_iff j k), put-IsDict k v d h.1)
  ]

  -- What a loop over the values finds is the value of some key.
  pub find-get :
      (p : V → Bool) (d : Dict K V) {v : V}
      → IsDict d
      → find p (values d) ≡ some v
      → (k : K) × (get k d ≡ some v)
  unfolding find get
  find-get p [] h found = ground arith
  find-get p ((j, w) ∷ d) {v} h found = elim (Bool-cases (p w)) [
    | inl hit ↦ (j, ground (arith, e.beq_iff j j))
    | inr miss ↦
        let (k, at) = find-get p d {v = v} h.1 (ground arith) in (k, ground (arith, e.beq_iff j k))
  ]

  -- What it does not find is no value of any key.
  pub get-of_find-none :
      (p : V → Bool) (k : K) (d : Dict K V) {v : V}
      → find p (values d) ≡ none
      → get k d ≡ some v
      → p v ≡ false
  unfolding find get
  get-of_find-none p k [] none_found at = ground arith
  get-of_find-none p k ((j, w) ∷ d) {v} none_found at =
      ground (arith, get-of_find-none p k d {v = v})

  -- A new key goes to the end.
  pub put_absent : (k : K) (v : V) (d : Dict K V) → get k d ≡ none → put k v d ≡ d ++ (k, v) ∷ []
  unfolding get put
  put_absent k v [] h = refl
  put_absent k v ((j, w) ∷ d) h = ground (arith, put_absent k v d)

pub ruleset dict_laws = (get-put, get-put_self)

module _ {ℓ κ} {K : Type ℓ} {V : Type κ} ⦃e : Eq K⦄ where
  -- A write keeps a search successful if what it writes passes wherever what it replaces did.
  pub find-put :
      (p : V → Bool) (k : K) (v : V) (d : Dict K V)
      → ((w : V) → get k d ≡ some w → p w ≡ true → p v ≡ true)
      → is_some (find p (values d)) ≡ true
      → is_some (find p (values (put k v d))) ≡ true
  unfolding find get put
  find-put p k v [] keeps h = cc
  find-put p k v ((j, w) ∷ d) keeps h = elim (Bool-cases (j == k)) [
    | inl same ↦ ground (arith, keeps w, same)
    | inr other ↦ ground (arith, find-put p k v d (λ u at. keeps u (rw other at)), other)
  ]
