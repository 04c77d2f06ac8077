-- ===== src/Host.antt =====
-- What the gateway takes from the Python runtime and from the machine: printed forms, keyed digests,
-- the conversions of numbers, the environment, and Unicode beyond ASCII.
use agent_ui.Prelude.{ℕ, String, Bool, Option}
use agent_ui.Prelude.Json.{Fields, Value, Float, ℤ}
use Prim.Native.Char.{Char}
use Prim.Native.String.{◌++◌ as append}

pub record Host : Type 0 where
  -- `str(uuid)`; a UUID is its 128-bit number
  pub uuid_text : ℕ → String
  -- `time.isoformat()`
  pub iso_text : ℕ → String
  -- `hmac.new(key, message, sha256).hexdigest()`
  pub hmac_hex : String → String → String
  -- `str(v)` of a JSON value that is no string
  pub value_text : Value → String
  -- `float(s)`; `none` is a `ValueError`
  pub float_of_text : String → Option Float
  -- `float(n)`; `none` is an `OverflowError`
  pub float_of_int : ℤ → Option Float
  -- `dict(v)` of a JSON value that is no object; `none` is a `TypeError` or `ValueError`
  pub dict_of : Value → Option Fields
  -- `str.lower` of one character
  pub lower_char : Char → String
  -- `\w` in a regular expression
  pub is_word : ℕ → Bool
  -- `os.getenv`
  pub getenv : String → Option String

-- `s.lower()`, character by character (the final sigma of a Greek word is not told apart).
unfoldable pub lower : Host → String → String
lower h String.[] = String.[]
lower h (String.◌∷◌ c s) = append (h.lower_char c) (lower h s)
