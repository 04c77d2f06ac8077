-- ===== src/MemoryConfig.antt =====
-- services/gateway/src/local_ai_hub/memory_config.py: the validated configuration of memory.
use agent_ui.Prelude.{ℕ, String, Bool, List, Option}

pub data ProviderKind : Type 0 where
  builtin_postgres continuity_http disabled : ProviderKind

pub record MemoryProviderConfig : Type 0 where
  pub kind : ProviderKind
  pub base_url : Option String
  pub token_env : String
  pub namespace : String
  pub required : Bool

pub data CaptureMode : Type 0 where
  review automatic : CaptureMode

pub record AutomaticMemoryConfig : Type 0 where
  pub enabled : Bool
  pub default_user_enabled : Bool
  pub capture : Bool
  pub capture_mode : CaptureMode
  pub retrieval : Bool
  pub capabilities : List String
  pub excluded_experiences : List String
  pub extractor_experience : String
  pub max_candidates : ℕ
  pub queue_size : ℕ

pub record PersonalMemoryConfig : Type 0 where
  pub context : String
  pub subject_hmac_env : String

pub record RetentionConfig : Type 0 where
  pub pending_days : ℕ

pub record BridgePolicy : Type 0 where
  pub source_kind : String
  pub target_kind : String

pub record BridgeConfig : Type 0 where
  pub enabled : Bool
  pub operator_allowlist : List BridgePolicy

pub record IdentityConfig : Type 0 where
  pub forwarded_jwt_header : String
  pub forwarded_jwt_secret_env : String
  pub browser_cookie_name : String
  pub browser_cookie_secret_env : String
  pub allow_legacy_loopback_headers : Bool

pub record MemoryConfig : Type 0 where
  pub provider : MemoryProviderConfig
  pub automatic : AutomaticMemoryConfig
  pub personal : PersonalMemoryConfig
  pub retention : RetentionConfig
  pub bridges : BridgeConfig
  pub identity : IdentityConfig
