-- ===== src/Provider.antt =====
-- The provider interface of memory_provider.py, and the errors that the memory layer raises. A
-- provider keeps a state of its own; what its methods do with it is a parameter.
use agent_ui.Prelude.{ℕ, String, Bool, false, List, [], Option, none, Exec, pure, throw}
use agent_ui.Prelude.Json.{Fields, Float}
use agent_ui.Repository.State.{Time}

-- The exceptions, by class: `MemoryAccessError`, `MemoryConflictError`, `MemoryProviderError`,
-- `IdentityError`, and any other.
pub data Error : Type 0 where
  access_error : String → Error
  conflict_error : String → Error
  provider_error : String → Error
  identity_error : String → Error
  other_error : String → Error

pub record MemoryScope : Type 0 where
  pub namespace : String
  pub workspace_id : String
  pub context_id : Option String
  pub subject_id : Option String
  pub session_id : Option String

pub record ProviderRecord : Type 0 where
  pub id : String
  pub content : String
  pub metadata : Fields
  pub source : Option String
  pub importance : Float
  pub created_at : Option Time
  pub updated_at : Option Time
  pub forgotten : Bool
  pub rank : Float

pub record MemoryProvider : Type 1 where
  pub State : Type 0
  pub kind : String
  pub enabled : Bool
  pub context_load : MemoryScope → String → ℕ → Exec State Error (List ProviderRecord)
  -- content, source, metadata, importance, record id
  pub ingest :
      MemoryScope
      → String
      → Option String
      → Fields
      → Float
      → Option String
      → Exec State Error ProviderRecord
  pub list_records : MemoryScope → Bool → Exec State Error (List ProviderRecord)
  -- record id, content, reason
  pub correct : MemoryScope → String → String → String → Exec State Error ProviderRecord
  -- record id, reason
  pub forget : MemoryScope → String → String → Exec State Error Bool
  pub purge : MemoryScope → String → String → Exec State Error Bool
  pub export : MemoryScope → Exec State Error (List Fields)
  -- `migrate_legacy`, where the provider has it
  pub migrate_legacy : Option (String → MemoryScope → Exec State Error ℕ)

-- `DisabledMemoryProvider`
abbrev pub disabled_provider : MemoryProvider
disabled_provider = record {
  State = Unit {0};
  kind = "disabled";
  enabled = false;
  context_load = λ scope query limit. pure [];
  ingest = λ scope content source metadata importance record_id.
      throw (provider_error "memory provider is disabled");
  list_records = λ scope include_forgotten. pure [];
  correct = λ scope record_id content reason. throw (provider_error "memory provider is disabled");
  forget = λ scope record_id reason. pure false;
  purge = λ scope record_id reason. pure false;
  export = λ scope. pure [];
  migrate_legacy = none;
}
