-- ===== src/Repository/Invariant/Facts.antt =====
-- Facts on membership sets and on the two-part keys of the searches.
use agent_ui.Prelude.{
  String, ◌≡◌, inl, inr, ◌&&◌, ◌||◌, List, [], ◌∷◌, ◌++◌, arith, ◌==◌, nat_eq, string_eq, pair_eq,
  Eq, contains, Bool-cases, eq_iff,
}
use agent_ui.Repository.Spaces.{add_membership}
use agent_ui.Repository.State.{Uuid}

module _ {ℓ} {A : Type ℓ} ⦃e : Eq A⦄ where
  pub contains-append :
      (a b : A) (xs : List A) → contains a (xs ++ b ∷ []) ≡ (contains a xs || a == b)
  unfolding contains
  contains-append a b [] = ground arith
  contains-append a b (x ∷ xs) = ground (arith, contains-append a b xs)

pub contains-add_membership :
    (space : Uuid) (principal : String) (k : Uuid) (p : String) (ms : List (Uuid × String))
    → contains (k, p) (add_membership space principal ms)
      ≡ (contains (k, p) ms || (k == space && p == principal))
unfolding add_membership
contains-add_membership space principal k p ms =
    elim (Bool-cases (contains (space, principal) ms)) [
      | inl old ↦ rw old (ground (arith, eq_iff p principal))
      | inr new ↦ rw new (contains-append (k, p) (space, principal) ms)
    ]
