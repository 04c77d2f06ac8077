-- ===== src/Prelude/Keeps.antt =====
-- Predicates on the state that a method keeps, whether it returns or raises: one rule for each way
-- in which the program builds a method.
use mathlib.Core.Bool.{Bool, true, false}
use mathlib.Core.Option.{Option, none, some}
use mathlib.Core.Path.{◌≡◌, refl}
use agent_ui.Prelude.Tests.{if◌then◌else◌, case_option}
use agent_ui.Prelude.Effect.{Result, ok, raise, Exec, pure, throw, lift, gets, ◌>>=◌, ensure}

pub record Keeps {S E A : Type 0} (P : S → Type 0) (m : Exec S E A) : Type 0 where
  pub at : (s : S) → P s → P (m s).1

module _ {S E A : Type 0} {P : S → Type 0} where
  pub Keeps-pure : (a : A) → Keeps P (pure {E = E} a)
  unfolding pure
  Keeps-pure a = record { at = λ before held. held }

  pub Keeps-throw : (e : E) → Keeps P (throw {A = A} e)
  unfolding throw
  Keeps-throw e = record { at = λ before held. held }

  pub Keeps-lift : (r : Result E A) → Keeps P (lift r)
  unfolding lift
  Keeps-lift r = record { at = λ before held. held }

  pub Keeps-gets : (f : S → A) → Keeps P (gets {E = E} f)
  unfolding gets
  Keeps-gets f = record { at = λ before held. held }

  -- Each branch may use the outcome of the test.
  pub Keeps-if :
      (test : Bool) (m n : Exec S E A)
      → (test ≡ true → Keeps P m)
      → (test ≡ false → Keeps P n)
      → Keeps P (if test then m else n)
  Keeps-if true m n on_yes on_no = on_yes refl
  Keeps-if false m n on_yes on_no = on_no refl

  pub Keeps-case_option :
      {B : Type 0} (o : Option B) (m : Exec S E A) (f : B → Exec S E A)
      → Keeps P m
      → ((b : B) → o ≡ some b → Keeps P (f b))
      → Keeps P (case_option o m f)
  Keeps-case_option none m f km kf = km
  Keeps-case_option (some b) m f km kf = kf b refl

module _ {S E A B : Type 0} {P : S → Type 0} where
  -- What follows may use that the pure part gave a value.
  pub Keeps-bind-lift :
      (outcome : Result E A) (next : A → Exec S E B)
      → ((value : A) → outcome ≡ ok value → Keeps P (next value))
      → Keeps P (lift outcome >>= next)
  unfolding ◌>>=◌
  Keeps-bind-lift (raise error) next later = Keeps-throw error
  Keeps-bind-lift (ok value) next later = later value refl

  pub Keeps-bind :
      (first : Exec S E A) (next : A → Exec S E B)
      → Keeps P first
      → ((value : A) → Keeps P (next value))
      → Keeps P (first >>= next)
  unfolding ◌>>=◌
  Keeps-bind first next at_first later = record {
    at = λ before held.
        let (outcome, between) = first before in
        (Keeps-bind-lift outcome next (λ value _. later value)).at between
          (at_first.at before held);
  }

module _ {S E : Type 0} {P : S → Type 0} where
  -- What follows a guard may use that the guard held.
  pub Keeps-ensure :
      {B : Type 0} (b : Bool) (e : E) (f : Unit → Exec S E B)
      → (b ≡ true → Keeps P (f tt))
      → Keeps P (ensure b e >>= f)
  unfolding ◌>>=◌
  Keeps-ensure true e f kf = record { at = (kf refl).at }
  Keeps-ensure false e f kf = Keeps-throw e

pub ruleset keeps_rules = (
  Keeps-pure, Keeps-throw, Keeps-lift, Keeps-gets, Keeps-if, Keeps-case_option, Keeps-ensure,
  Keeps-bind,
)
