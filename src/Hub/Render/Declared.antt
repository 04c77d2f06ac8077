-- ===== src/Hub/Render/Declared.antt =====
-- The compose override of ops/hubctl.py: it is rendered from every checked catalog, and declares the
-- volumes that it mounts.
use agent_ui.Prelude.{String, true, All, ◌⊎◌, some, ◌≡◌, string_eq, is_some}
use agent_ui.Prelude.Json.{Fields, str, get_field}
use agent_ui.Host.{Host}
use agent_ui.Hub.Render.{Override}

-- A mount binds a path of the host, or names a volume that is declared.
abbrev pub IsDeclared : Fields → Fields → Type 0
IsDeclared volumes d =
    (get_field "type" d ≡ some (str "bind"))
    ⊎ ((name : String) × (get_field "source" d ≡ some (str name))
        × (is_some (get_field name volumes) ≡ true))

abbrev pub AreDeclared : Override → Type 0
AreDeclared st = All (IsDeclared st.volumes) st.mounts
