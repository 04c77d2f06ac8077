-- ===== src/Prelude/Json.antt =====
-- JSON values as Python reads them, and `float` values.
use Prim.Native.Nat.{ℕ, suc, ◌+◌, ◌*◌, ◌^◌}
use Prim.Native.String.{String}
use mathlib.Core.Path.{◌≡◌, refl}
use mathlib.Core.Logic.{◌⊎◌, ◌≢◌, inl, inr}
use mathlib.Core.Bool.{Bool, true, false}
use mathlib.Core.Option.{Option, none, some}
use native.Mathlib.Omega.{arith}
use text.Mathlib.TextEquality.{eq_iff}
use agent_ui.Prelude.Tests.{leb, if◌then◌else◌}
use agent_ui.Prelude.Classes.{◌==◌, string_eq}
use agent_ui.Prelude.Text.{is_empty}

-- `negsuc n` is -(n + 1).
pub data ℤ : Type 0 where
  pos : ℕ → ℤ
  negsuc : ℕ → ℤ

abbrev pub pos_part : ℤ → ℕ
pos_part (pos n) = n
pos_part (negsuc n) = 0

abbrev pub neg_part : ℤ → ℕ
neg_part (pos n) = 0
neg_part (negsuc n) = suc n

abbrev pub leb_ℤ : ℤ → ℤ → Bool
leb_ℤ a b = leb (pos_part a + neg_part b) (pos_part b + neg_part a)

-- A finite double is a whole multiple of 2 ^ -1074, and `finite` holds that multiple. The sign of
-- zero is not kept.
pub data Float : Type 0 where
  nan : Float
  plus_inf : Float
  minus_inf : Float
  finite : ℤ → Float

abbrev pub float_zero : Float
float_zero = finite (pos 0)

abbrev pub float_half : Float
float_half = finite (pos (2 ^ 1073))

abbrev pub float_one : Float
float_one = finite (pos (2 ^ 1074))

-- the double nearest to 0.7
abbrev pub float_seven_tenths : Float
float_seven_tenths = finite (pos (6305039478318694 * 2 ^ 1021))

-- `math.isfinite(x)`
abbrev pub is_finite : Float → Bool
is_finite (finite _) = true
is_finite _ = false

mutual
  pub data Value : Type 0 where
    null : Value
    boolean : Bool → Value
    int : ℤ → Value
    float : Float → Value
    str : String → Value
    arr : Items → Value
    obj : Fields → Value

  pub data Fields : Type 0 where
    end : Fields
    field : String → Value → Fields → Fields

  pub data Items : Type 0 where
    nil : Items
    cons : Value → Items → Items

-- `d.get(k)`, with `none` for a key that is absent
unfoldable pub get_field : String → Fields → Option Value
get_field k end = none
get_field k (field j v fs) = if j == k then some v else get_field k fs

-- `d[k] = v`
unfoldable pub put_field : String → Value → Fields → Fields
put_field k v end = field k v end
put_field k v (field j w fs) = if j == k then field j v fs else field j w (put_field k v fs)

-- `{**d, **e}`
unfoldable pub update : Fields → Fields → Fields
update d end = d
update d (field k v e) = update (put_field k v d) e

-- `d.pop(k, None)`
unfoldable pub pop_field : String → Fields → Fields
pop_field k end = end
pop_field k (field j w fs) = if j == k then fs else field j w (pop_field k fs)

-- `d.setdefault(k, v)`
unfoldable pub set_default : String → Value → Fields → Fields
unfolding get_field put_field
set_default k v d = elim (get_field k d) [ none ↦ put_field k v d | some _ ↦ d ]

-- `bool(v)`
abbrev pub truthy : Value → Bool
truthy null = false
truthy (boolean b) = b
truthy (int (pos ℕ.zero)) = false
truthy (int _) = true
truthy (float (finite (pos ℕ.zero))) = false
truthy (float _) = true
truthy (str s) = elim (is_empty s) [ true ↦ false | false ↦ true ]
truthy (arr nil) = false
truthy (arr _) = true
truthy (obj end) = false
truthy (obj _) = true

pub get-put_field :
    (k j : String) (v : Value) (d : Fields)
    → get_field j (put_field k v d) ≡ (if k == j then some v else get_field j d)
unfolding get_field put_field
get-put_field k j v end = refl
get-put_field k j v (field i w d) =
    ground (arith, eq_iff k j, eq_iff i k, eq_iff i j, get-put_field k j v d)

pub get-put_same : (k : String) (v : Value) (d : Fields) → get_field k (put_field k v d) ≡ some v
get-put_same k v d = ground (arith, get-put_field k k v d, eq_iff k k)

pub get-put_other :
    (k j : String) (v : Value) (d : Fields) → k ≢ j → get_field j (put_field k v d) ≡ get_field j d
get-put_other k j v d other = ground (arith, get-put_field k j v d, eq_iff k j, other)

pub Value-cases : (o : Option Value) → (o ≡ none) ⊎ ((v : Value) × (o ≡ some v))
Value-cases none = inl refl
Value-cases (some v) = inr (v, refl)
