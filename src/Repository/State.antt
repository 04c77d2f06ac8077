-- ===== src/Repository/State.antt =====
-- The records and the state of memory_repository.py. Sets and dicts are in insertion order.
use agent_ui.Prelude.{ℕ, String, Bool, List, [], Option}
use agent_ui.Prelude.Dict.{Dict}
use agent_ui.Prelude.Json.{Fields}

-- A `UUID` is its number.
abbrev pub Uuid : Type 0
Uuid = ℕ

-- A `datetime` in microseconds since the epoch.
abbrev pub Time : Type 0
Time = ℕ

pub record UserMemorySettings : Type 0 where
  pub enabled : Bool
  pub capture_enabled : Bool
  pub retrieval_enabled : Bool

pub record MemorySpace : Type 0 where
  pub id : Uuid
  pub kind : String
  pub owner_principal_id : String
  pub display_name : String
  pub provider_namespace : String
  pub metadata : Fields

pub record MemoryProposal : Type 0 where
  pub id : Uuid
  pub space_id : Uuid
  pub principal_id : String
  pub content : Option String
  pub state : String
  pub source_experience : String
  pub source_chat_hash : Option String
  pub metadata : Fields
  pub expires_at : Time
  pub created_at : Time

pub record MemoryRecordRef : Type 0 where
  pub id : Uuid
  pub space_id : Uuid
  pub principal_id : String
  pub provider_record_id : String
  pub proposal_id : Option Uuid
  pub external_id : Option String
  pub status : String
  pub provenance : Fields

pub record BridgeConsent : Type 0 where
  pub source_space_id : Uuid
  pub target_space_id : Uuid
  pub source_consented : Bool
  pub target_consented : Bool

pub record AuditEvent : Type 0 where
  pub principal_id : String
  pub action : String
  pub target_type : String
  pub target_id : String
  pub metadata : Fields

abbrev pub BridgeKey : Type 0
BridgeKey = Uuid × (Uuid × String)

pub record Repository : Type 0 where
  pub settings : Dict String UserMemorySettings
  pub spaces : Dict Uuid MemorySpace
  pub memberships : List (Uuid × String)
  pub proposals : Dict Uuid MemoryProposal
  pub references : Dict Uuid MemoryRecordRef
  pub bridges : Dict BridgeKey BridgeConsent
  pub audit_events : List AuditEvent

-- `__init__`
abbrev pub empty_repository : Repository
empty_repository = record {
  settings = [];
  spaces = [];
  memberships = [];
  proposals = [];
  references = [];
  bridges = [];
  audit_events = [];
}
