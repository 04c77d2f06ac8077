-- ===== src/Hub/Environment.antt =====
-- The environment file of ops/hubctl.py: reading, rendering from a template, and `env init`, which
-- gives every service a port of its own and every secret a value.
pub mod Allocation
pub mod Initial
pub mod Lines
pub mod OtherKeys
pub mod RoundTrip
use agent_ui.Prelude.{
  ℕ, zero, suc, String, Bool, true, false, ◌&&◌, ◌||◌, not, List, [], ◌∷◌, ◌++◌, map, Option, none,
  some, Result, ok, raise, and_then, case_option, if◌then◌else◌, leb, contains, is_some, ◌==◌,
  string_eq, nat_eq,
}
use agent_ui.Prelude.Text.{
  is_empty, strip, lstrip, starts_char, join_two, join, splitlines, has_char, text_before,
}
use agent_ui.Prelude.Dict.{Dict, get, put}
use agent_ui.Prelude.Json.{ℤ}
use agent_ui.Hub.Documents.{Failure, hub_error}
use agent_ui.Hub.Registration.{split_once}

abbrev pub port_keys : List String
port_keys =
    "POSTGRES_HOST_PORT" ∷ "LLAMA_HOST_PORT" ∷ "GATEWAY_HOST_PORT" ∷ "OPEN_WEBUI_HOST_PORT"
    ∷ "SILLYTAVERN_HOST_PORT" ∷ "HERMES_API_HOST_PORT" ∷ "HERMES_DASHBOARD_HOST_PORT"
    ∷ "PROMETHEUS_HOST_PORT" ∷ []

-- `(*SECRET_KEYS, *OPTIONAL_SECRET_KEYS)`
abbrev pub all_secret_keys : List String
all_secret_keys =
    "POSTGRES_PASSWORD" ∷ "LLAMA_API_KEY" ∷ "GATEWAY_API_KEY" ∷ "WEBUI_SECRET_KEY"
    ∷ "MEMORY_SUBJECT_HMAC_KEY" ∷ "HERMES_API_KEY" ∷ "HERMES_DASHBOARD_PASSWORD"
    ∷ "SEARXNG_SECRET_KEY" ∷ "OPEN_TERMINAL_API_KEY" ∷ "CONTINUITY_API_TOKEN" ∷ []

-- What the commands take from the machine, each by the number of the call.
pub record Machine : Type 0 where
  -- `random.SystemRandom().randint(40000, 60999)`
  pub drawn : ℕ → ℕ
  -- whether the socket could be bound
  pub binds : ℕ → Bool
  -- `secrets.token_urlsafe(32)`
  pub token : ℕ → String
  -- `int(s)`; `none` is a `ValueError`
  pub int_of_text : String → Option ℤ
  -- `str(n)`
  pub number_text : ℕ → String

abbrev pub Environment : Type 0
Environment = Dict String String

abbrev stripped : String × String → String × String
stripped (k, v) = (strip k, strip v)

-- A line of an environment file, without its white space.
abbrev pub assignment : String → Option (String × String)
assignment line =
    if is_empty line || starts_char b'#' line
    then none
    else case_option (split_once line) none (λ pair. some (stripped pair))

unfoldable pub parse_lines : List String → Environment → Environment
unfolding split_once strip put starts_char
parse_lines [] values = values
parse_lines (raw ∷ rest) values =
    parse_lines rest (case_option (assignment (strip raw)) values (λ (k, v). put k v values))

-- `parse_env`, of the text of a file
unfoldable pub parse_env : String → Environment
unfolding parse_lines splitlines
parse_env text = parse_lines (splitlines text) []

-- `f"{key}={value}"`
abbrev pub env_line : String → String → String
env_line key value = join_two key (join_two "=" value)

-- The key of a line of a template that is filled in.
unfoldable pub template_key : String → Option String
unfolding lstrip split_once strip starts_char
template_key raw =
    if is_empty raw || starts_char b'#' (lstrip raw)
    then none
    else case_option (split_once raw) none (λ (k, v). some (strip k))

abbrev pub value_of : Environment → String → String
value_of values key = case_option (get key values) "" (λ v. v)

unfoldable pub render_lines : Environment → List String → List String
unfolding template_key get
render_lines values [] = []
render_lines values (raw ∷ rest) =
    case_option (template_key raw) raw (λ key. env_line key (value_of values key))
    ∷ render_lines values rest

-- The keys that a template has.
unfoldable pub seen_keys : List String → List String
unfolding template_key
seen_keys [] = []
seen_keys (raw ∷ rest) =
    case_option (template_key raw) (seen_keys rest) (λ key. key ∷ seen_keys rest)

unfoldable pub insert_text : String → List String → List String
unfolding text_before
insert_text s [] = s ∷ []
insert_text s (t ∷ ts) = if text_before t s then t ∷ insert_text s ts else s ∷ t ∷ ts

-- `sorted(set(values) - seen)`
unfoldable pub other_keys : List String → Environment → List String
unfolding insert_text contains
other_keys seen [] = []
other_keys seen ((k, v) ∷ rest) =
    if contains k seen then other_keys seen rest else insert_text k (other_keys seen rest)

-- The lines of the rendered file.
unfoldable pub rendered_lines : List String → Environment → List String
unfolding render_lines seen_keys other_keys get
rendered_lines template values =
    render_lines values template
    ++ map (λ key. env_line key (value_of values key)) (other_keys (seen_keys template) values)

-- `render_env_template`, of the text of the template
unfoldable pub render_env_template : String → Environment → String
unfolding rendered_lines splitlines join
render_env_template template values =
    join_two (join "\n" (rendered_lines (splitlines template) values)) "\n"

-- The loop of `allocate_port`, with the number of tries that are left and of the next draw.
unfoldable pub allocate : Machine → ℕ → ℕ → List ℕ → Option (ℕ × ℕ)
unfolding contains
allocate m zero i used = none
allocate m (suc tries) i used =
    let later = allocate m tries (suc i) used in
    if contains (m.drawn i) used
    then later
    else if m.binds i
    then some (m.drawn i, suc i)
    else later

unfoldable pub allocate_port : Machine → ℕ → List ℕ → Result Failure (ℕ × ℕ)
unfolding allocate
allocate_port m i used =
    case_option (allocate m 5000 i used)
      (raise (hub_error "Unable to allocate an unused high TCP port")) ok

-- The state of the loop over the ports.
pub record Ports : Type 0 where
  pub values : Environment
  pub used : List ℕ
  pub draws : ℕ

abbrev pub in_range : ℕ → Bool
in_range port = leb 1024 port && leb port 65535

-- A port that is configured.
unfoldable pub configured : Option ℤ → Ports → Result Failure Ports
unfolding contains
configured none st = raise (hub_error "Port must be an integer")
configured (some (ℤ.negsuc _)) st = raise (hub_error "Invalid or duplicate configured host port")
configured (some (ℤ.pos port)) st =
    if not (in_range port) || contains port st.used
    then raise (hub_error "Invalid or duplicate configured host port")
    else ok (record st { used = port ∷ st.used })

unfoldable pub port_step : Machine → Bool → String → Ports → Result Failure Ports
unfolding configured allocate_port get put
port_step m reallocate key st =
    let current = value_of st.values key in
    if not (is_empty current) && not reallocate
    then configured (m.int_of_text current) st
    else (and_then (allocate_port m st.draws st.used) λ found. ok (record {
      values = put key (m.number_text found.0) st.values;
      used = found.0 ∷ st.used;
      draws = found.1;
    }))

unfoldable pub port_loop : Machine → Bool → List String → Ports → Result Failure Ports
unfolding port_step
port_loop m reallocate [] st = ok st
port_loop m reallocate (key ∷ keys) st =
    and_then (port_step m reallocate key st) λ next. port_loop m reallocate keys next

pub record InitArgs : Type 0 where
  pub reallocate_ports : Bool
  pub rotate_secrets : Bool
  pub rotate_postgres_password : Bool

-- Whether a secret is drawn anew, for an output that exists or not.
abbrev pub rotates : InitArgs → Bool → String → Bool
rotates a existed key =
    if key == "POSTGRES_PASSWORD" && existed
    then a.rotate_secrets && a.rotate_postgres_password
    else a.rotate_secrets

-- The loop over the secrets, with the number of the next token.
unfoldable pub secret_loop : Machine → InitArgs → Bool → List String → ℕ → Environment → Environment
unfolding get put
secret_loop m a existed [] i values = values
secret_loop m a existed (key ∷ keys) i values =
    if is_empty (value_of values key) || rotates a existed key
    then secret_loop m a existed keys (suc i) (put key (m.token i) values)
    else secret_loop m a existed keys i values

-- `{**d, **e}`
unfoldable pub overridden : Environment → Environment → Environment
unfolding put
overridden d [] = d
overridden d ((k, v) ∷ e) = overridden (put k v d) e

-- The values that `cmd_env_init` renders, from the texts of the template and of the output.
unfoldable pub initialized :
    Machine → InitArgs → Option String → Option String → Result Failure (String × Environment)
unfolding parse_env overridden port_loop secret_loop
initialized m a none output = raise (hub_error "Environment template not found")
initialized m a (some template) output =
    let existing = case_option output [] parse_env in
    let values = overridden (parse_env template) existing in
    and_then
      (port_loop m a.reallocate_ports port_keys (record { values = values; used = []; draws = 0 }))
      λ st. ok (template, secret_loop m a (is_some output) all_secret_keys 0 st.values)

-- The text that is written to the output.
unfoldable pub cmd_env_init :
    Machine → InitArgs → Option String → Option String → Result Failure String
unfolding initialized render_env_template
cmd_env_init m a template output =
    and_then (initialized m a template output) λ plan. ok (render_env_template plan.0 plan.1)
