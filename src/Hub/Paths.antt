-- ===== src/Hub/Paths.antt =====
-- The paths of ops/hubctl.py: what Python's pathlib does with POSIX paths before they are opened.
use agent_ui.Prelude.{
  String, List, [], ◌∷◌, ◌++◌, Option, none, some, case_option, leb, nat_beq, if◌then◌else◌, ◌==◌,
  string_eq, ◌||◌, not, select,
}
use agent_ui.Prelude.Text.{is_empty, text_length, text_starts, join_two, join, split_on}
use Prim.Native.Char.{code}

pub record PosixPath : Type 0 where
  -- empty, `/`, or the two slashes that a path may begin with
  pub root : String
  pub parts : List String

abbrev root_of : String → String
root_of s =
    if text_starts s "//"
    then (if text_starts s "///" then "/" else "//")
    else (if text_starts s "/" then "/" else "")

-- `Path(s)`
unfoldable pub path : String → PosixPath
unfolding select split_on
path s = record {
  root = root_of s;
  parts = select (λ part. not (is_empty part || part == ".")) (split_on b'/' s);
}

-- `str(p)`
unfoldable pub path_text : PosixPath → String
unfolding join
path_text p = let text = join_two p.root (join "/" p.parts) in if is_empty text then "." else text

-- `p / s`
unfoldable pub joined : PosixPath → String → PosixPath
unfolding path
joined p s =
    let right = path s in
    if is_empty right.root then record { root = p.root; parts = p.parts ++ right.parts } else right

abbrev last_part : List String → String
last_part [] = ""
last_part (x ∷ []) = x
last_part (x ∷ y ∷ ys) = last_part (y ∷ ys)

-- `p.name`
abbrev pub path_name : PosixPath → String
path_name p = last_part p.parts

-- The text from its last dot on.
unfoldable from_dot : String → Option String
from_dot String.[] = none
from_dot (String.◌∷◌ c s) =
    let later = from_dot s in
    case_option later (if nat_beq (code c) b'.' then some (String.◌∷◌ c s) else none) some

abbrev suffix_of : String → String
suffix_of String.[] = ""
suffix_of (String.◌∷◌ c s) =
    case_option (from_dot s) "" (λ t. if leb 2 (text_length t) then t else "")

-- `p.suffix`
unfoldable pub path_suffix : PosixPath → String
unfolding from_dot
path_suffix p = suffix_of (path_name p)
