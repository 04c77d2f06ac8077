-- ===== src/Tests/Controls.antt =====
-- The theorems on the renderers and the environment file of the control plane at concrete inputs.
use agent_ui.Prelude.{
  String, ℕ, zero, suc, ◌+◌, true, false, [], ◌∷◌, Option, none, some, ◌≡◌, refl, arith, ok, raise,
  string_eq, contains, ap, Result, if◌then◌else◌, nat_beq,
}
use agent_ui.Prelude.Text.{
  is_space, join_two, text_length, is_empty, splitlines, is_break, has_char, starts_char,
}
use agent_ui.Prelude.Text.Trim.{starts_space, ends_space}
use agent_ui.Hub.Documents.{Failure}
use Prim.Native.Char.{code}
use agent_ui.Prelude.Dict.{get}
use agent_ui.Prelude.Json.{Fields, ℤ, pos, str, int, obj, end, field}
use agent_ui.Hub.Environment.{
  Machine, Environment, InitArgs, initialized, port_keys, value_of, parse_env, render_env_template,
  seen_keys,
}
use agent_ui.Hub.Environment.Allocation.{IsMachine, HasPorts}
use agent_ui.Hub.Environment.Initial.{initialized-HasPorts}
use agent_ui.Hub.Environment.OtherKeys.{AreHeld}
use agent_ui.Hub.Environment.RoundTrip.{render_env_template-parse}

abbrev volume_model : Fields
volume_model = field "backend" (str "local") (
    field "artifact" (obj (field "kind" (str "docker_volume") (field "volume" (str "weights") end)))
      end)

abbrev pub catalog : Fields
catalog = field "version" (int (pos 2)) (
    field "backends" (obj (field "local" (obj (field "kind" (str "llama.cpp") end)) end))
      (field "models" (obj (field "m.1" (obj volume_model) end)) end))

-- Numbers in strokes; any other text is read by its first character.
abbrev strokes : ℕ → String
strokes zero = ""
strokes (suc n) = join_two "I" (strokes n)

abbrev read_number : String → Option ℤ
read_number String.[] = some (pos 0)
read_number (String.◌∷◌ c s) =
    if nat_beq (code c) b'I' then some (pos (suc (text_length s))) else some (pos (2000 + code c))

abbrev controls : Machine
controls = record {
  drawn = λ i. 40000;
  binds = λ i. true;
  token = λ i. "token";
  int_of_text = read_number;
  number_text = strokes;
}

length-strokes : (n : ℕ) → text_length (strokes n) ≡ n
length-strokes zero = refl
length-strokes (suc n) = ap suc (length-strokes n)

read-strokes : (n : ℕ) → read_number (strokes n) ≡ some (pos n)
read-strokes zero = refl
read-strokes (suc n) = ap (λ k. some (pos (suc k))) (length-strokes n)

controls-IsMachine : IsMachine controls
controls-IsMachine = record {
  read_back = read-strokes;
  drawn_least = λ i. omega arith;
  drawn_most = λ i. omega arith;
  token_given = λ i. refl;
}

abbrev template : String
template =
    "# ports\nPOSTGRES_HOST_PORT=a\nLLAMA_HOST_PORT=b\nGATEWAY_HOST_PORT=c\nOPEN_WEBUI_HOST_PORT=d\nSILLYTAVERN_HOST_PORT=e\nHERMES_API_HOST_PORT=f\nHERMES_DASHBOARD_HOST_PORT=g\nPROMETHEUS_HOST_PORT=\nLLAMA_API_KEY=kept"

abbrev asked : InitArgs
asked = record {
  reallocate_ports = false;
  rotate_secrets = false;
  rotate_postgres_password = false;
}

abbrev values_of : Result Failure (String × Environment) → Environment
values_of (ok plan) = plan.1
values_of (raise e) = []

abbrev settled : Environment
settled = values_of (initialized controls asked (some template) none)

init_run : initialized controls asked (some template) none ≡ ok (template, settled)
unfolding initialized is_space
init_run = refl

initialized-HasPorts_example :
    HasPorts controls settled port_keys [] × (is_empty (value_of settled "GATEWAY_API_KEY") ≡ false)
unfolding contains
initialized-HasPorts_example =
    initialized-HasPorts controls asked (some template) none template settled "GATEWAY_API_KEY"
      controls-IsMachine refl init_run

abbrev two_values : Environment
two_values = ("A", "one two") ∷ ("B", "") ∷ []

two_held : AreHeld two_values
unfolding is_break has_char starts_char starts_space ends_space
two_held = (
  (
    record {
      trim = record { starts = refl; ends = refl };
      line = (refl, tt);
      no_equals = refl;
      no_comment = refl;
    },
    record {
      trim = record { starts = refl; ends = refl };
      line = (refl, (refl, (refl, (refl, (refl, (refl, (refl, tt)))))));
    },
  ),
  (
    (
      record {
        trim = record { starts = refl; ends = refl };
        line = (refl, tt);
        no_equals = refl;
        no_comment = refl;
      },
      record { trim = record { starts = refl; ends = refl }; line = tt },
    ),
    tt,
  ),
)

render_env_template-parse_example :
    get "A" (parse_env (render_env_template "# head\nB = x\nC=y" two_values)) ≡ (
      if contains "A" (seen_keys (splitlines "# head\nB = x\nC=y"))
      then some (value_of two_values "A")
      else get "A" two_values)
render_env_template-parse_example =
    render_env_template-parse "# head\nB = x\nC=y" two_values "A" two_held

rendered : render_env_template "# head\nB = x\nC=y" two_values ≡ "# head\nB=\nC=\nA=one two\n"
unfolding render_env_template is_space
rendered = refl
