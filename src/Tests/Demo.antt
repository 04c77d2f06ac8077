-- ===== src/Tests/Demo.antt =====
-- A machine, a configuration and a provider to run the service on. The provider is a log of all
-- contents that it was ever given.
use agent_ui.Prelude.{
  ℕ, zero, suc, String, Bool, true, false, ◌&&◌, ◌||◌, List, [], ◌∷◌, none, some, leb, nat_beq, ok,
}
use agent_ui.Prelude.Json.{float_half, float_zero, end}
use agent_ui.Host.{Host}
use agent_ui.MemoryConfig.{MemoryConfig, builtin_postgres, automatic}
use agent_ui.Provider.{MemoryProvider, ProviderRecord}
use agent_ui.Repository.State.{Repository, empty_repository}
use agent_ui.Service.World.{MemoryService, World}
use Prim.Native.String.{◌++◌ as append}

unfoldable pub tally : ℕ → String
tally zero = ""
tally (suc n) = append "1" (tally n)

abbrev pub ascii_word : ℕ → Bool
ascii_word c =
    leb b'A' c && leb c b'Z'
    || leb b'a' c && leb c b'z'
    || leb b'0' c && leb c b'9'
    || nat_beq c b'_'

abbrev pub machine : Host
machine = record {
  uuid_text = λ n. tally n;
  iso_text = λ t. "1970-01-01T00:00:00+00:00";
  hmac_hex = λ key message. append key message;
  value_text = λ v. "value";
  float_of_text = λ s. none;
  float_of_int = λ n. some float_half;
  dict_of = λ v. none;
  lower_char = λ c. String.◌∷◌ c String.[];
  is_word = ascii_word;
  getenv = λ name. some "0123456789abcdef0123456789abcdef";
}

abbrev told : String → ProviderRecord
told content = record {
  id = "record";
  content = content;
  metadata = end;
  source = none;
  importance = float_half;
  created_at = none;
  updated_at = none;
  forgotten = false;
  rank = float_zero;
}

abbrev pub log_provider : MemoryProvider
log_provider = record {
  State = List String;
  kind = "log";
  enabled = true;
  context_load = λ scope query limit log. (ok [], log);
  ingest =
      λ scope content source metadata importance record_id log. (ok (told content), content ∷ log);
  list_records = λ scope all log. (ok [], log);
  correct = λ scope record_id content reason log. (ok (told content), content ∷ log);
  forget = λ scope record_id reason log. (ok true, log);
  purge = λ scope record_id reason log. (ok true, log);
  export = λ scope log. (ok [], log);
  migrate_legacy = none;
}

abbrev pub config : MemoryConfig
config = record {
  provider = record {
    kind = builtin_postgres;
    base_url = none;
    token_env = "TOKEN";
    namespace = "agent-ui";
    required = false;
  };
  automatic = record {
    enabled = true;
    default_user_enabled = true;
    capture = true;
    capture_mode = automatic;
    retrieval = true;
    capabilities = "chat" ∷ [];
    excluded_experiences = [];
    extractor_experience = "chat";
    max_candidates = 3;
    queue_size = 8;
  };
  personal = record { context = "personal"; subject_hmac_env = "SUBJECT_KEY" };
  retention = record { pending_days = 30 };
  bridges = record { enabled = true; operator_allowlist = [] };
  identity = record {
    forwarded_jwt_header = "header";
    forwarded_jwt_secret_env = "JWT";
    browser_cookie_name = "cookie";
    browser_cookie_secret_env = "COOKIE";
    allow_legacy_loopback_headers = false;
  };
}

abbrev pub service : MemoryService
service = record {
  host = machine;
  config = config;
  provider = log_provider;
  subject_hmac_fallback = "fallback";
}

abbrev pub world_of : ℕ → Repository → World (List String)
world_of n r = record { repository = r; store = []; uuids = n; clock = 1000 }

abbrev pub new_world : World (List String)
new_world = world_of 1 empty_repository
