-- ===== src/Prelude/Bind.antt =====
-- What a method that returned has done.
use mathlib.Core.Path.{◌≡◌, refl}
use mathlib.Core.Bool.{Bool, true, false}
use mathlib.Core.Logic.{◌⊎◌, inl, inr}
use native.Mathlib.Omega.{arith}
use agent_ui.Prelude.Tests.{if◌then◌else◌}
use agent_ui.Prelude.Effect.{
  Result, ok, raise, Exec, pure, throw, lift, ◌>>=◌, ensure, continue, and_then,
}

-- A sequence that returned ran its first part, and the rest from there.
pub record Ran {S E A B : Type 0} (m : Exec S E A) (f : A → Exec S E B) (w : S) (b : B) (v : S)
    : Type 0 where
  pub value : A
  pub between : S
  pub first : m w ≡ (ok value, between)
  pub rest : f value between ≡ (ok b, v)

module _ {S E A B : Type 0} where
  ran_from :
      (r : Result E A) (u : S) (f : A → Exec S E B) (b : B) (v : S)
      → continue r f u ≡ (ok b, v)
      → (a : A) × (r ≡ ok a) × (f a u ≡ (ok b, v))
  ran_from (ok a) u f b v h = (a, refl, h)
  ran_from (raise e) u f b v h = absurd (ground arith)

  pub >>=-Ran :
      (m : Exec S E A) (f : A → Exec S E B) (w : S) (b : B) (v : S)
      → (m >>= f) w ≡ (ok b, v)
      → Ran m f w b v
  unfolding ◌>>=◌
  >>=-Ran m f w b v h =
      let (a, e, rest) = ran_from (m w).0 (m w).1 f b v h in
      record { value = a; between = (m w).1; first = λ i. (e i, (m w).1); rest = rest }

module _ {S E A : Type 0} where
  pub lift-Ran :
      (r : Result E A) (w : S) (a : A) (v : S) → lift r w ≡ (ok a, v) → (r ≡ ok a) × (w ≡ v)
  unfolding lift
  lift-Ran r w a v h = ground arith

module _ {S E : Type 0} where
  pub ensure-Ran :
      (b : Bool) (e : E) (w : S) (v : S) → ensure b e w ≡ (ok tt, v) → (b ≡ true) × (w ≡ v)
  unfolding pure throw
  ensure-Ran true e w v h = ground arith
  ensure-Ran false e w v h = absurd (ground arith)

-- The pure part of a sequence, likewise.
pub and_then-Ran :
    {E A B : Type 0} (r : Result E A) (f : A → Result E B) (b : B)
    → and_then r f ≡ ok b
    → (a : A) × (r ≡ ok a) × (f a ≡ ok b)
and_then-Ran (ok a) f b h = (a, refl, h)
and_then-Ran (raise e) f b h = absurd (ground arith)

pub ok-injective : {E A : Type 0} (a b : A) → ◌≡◌ {A = Result E A} (ok a) (ok b) → a ≡ b
ok-injective a b h = ground (arith, h)

-- A result that is no raise.
pub record Returns {E A : Type 0} (r : Result E A) : Type 0 where
  pub value : A
  pub is : r ≡ ok value

module _ {E A : Type 0} where
  pub Returns-ok : (a : A) → Returns {E = E} (ok a)
  Returns-ok a = record { value = a; is = refl }

  pub Returns-of : (r : Result E A) (a : A) → r ≡ ok a → Returns r
  Returns-of r a h = record { value = a; is = h }

  pub Returns-if :
      (b : Bool) (r s : Result E A)
      → (b ≡ true → Returns r)
      → (b ≡ false → Returns s)
      → Returns (if b then r else s)
  Returns-if true r s on_true on_false = on_true refl
  Returns-if false r s on_true on_false = on_false refl

pub Returns-and_then :
    {E A B : Type 0} (r : Result E A) (f : A → Result E B)
    → Returns r
    → ((a : A) → r ≡ ok a → Returns (f a))
    → Returns (and_then r f)
Returns-and_then (ok a) f first rest = rest a refl
Returns-and_then (raise e) f first rest = absurd (ground (arith, first.is))

pub Result-cases :
    {E A : Type 0} (r : Result E A) → ((e : E) × (r ≡ raise e)) ⊎ ((a : A) × (r ≡ ok a))
Result-cases (raise e) = inl (e, refl)
Result-cases (ok a) = inr (a, refl)
