-- ===== src/Service/Closed/Rules.antt =====
-- A predicate on worlds that the calls of the repository and of the provider keep, and the rules for
-- the pieces that the methods are made of.
use agent_ui.Prelude.{ℕ, suc, String, Bool, false, Option, some, ◌≡◌, Exec}
use agent_ui.Prelude.Keeps.{Keeps}
use agent_ui.Prelude.Json.{Fields, Float}
use agent_ui.Host.{lower}
use agent_ui.Provider.{MemoryScope, Error}
use agent_ui.Repository.State.{Uuid, Time, UserMemorySettings, Repository}
use agent_ui.Repository.Spaces
use agent_ui.Repository.Proposals
use agent_ui.Repository.References
use agent_ui.Repository.Bridges
use agent_ui.Repository.Steps.{Step}
use agent_ui.Service.World.{
  MemoryService, World, reading, writing, drawing, provided, clock_now, audit,
}
use agent_ui.Service.Records.{is_secret}

-- `ingest` and `correct` are asked for only with a content that shows no secret.
pub record IsClosed (s : MemoryService) (P : World s.provider.State → Type 0) : Type 0 where
  pub stepped :
      (w : World s.provider.State) (m : ℕ) (t : Repository)
      → Step w.uuids w.repository m t
      → P w
      → P (record w { repository = t; uuids = m })
  pub ingested :
      (scope : MemoryScope) (content : String) (source : Option String) (metadata : Fields)
      (importance : Float) (record_id : Option String)
      → is_secret s content ≡ false
      → Keeps P (provided (s.provider.ingest scope content source metadata importance record_id))
  pub corrected :
      (scope : MemoryScope) (record_id content reason : String)
      → is_secret s content ≡ false
      → Keeps P (provided (s.provider.correct scope record_id content reason))
  pub loaded :
      (scope : MemoryScope) (query : String) (limit : ℕ)
      → Keeps P (provided (s.provider.context_load scope query limit))
  pub listed :
      (scope : MemoryScope) (all : Bool) → Keeps P (provided (s.provider.list_records scope all))
  pub forgotten :
      (scope : MemoryScope) (record_id reason : String)
      → Keeps P (provided (s.provider.forget scope record_id reason))
  pub purged :
      (scope : MemoryScope) (record_id reason : String)
      → Keeps P (provided (s.provider.purge scope record_id reason))
  pub exported : (scope : MemoryScope) → Keeps P (provided (s.provider.export scope))
  pub migrated :
      (migrate : String → MemoryScope → Exec s.provider.State Error ℕ) (principal : String)
      (scope : MemoryScope)
      → s.provider.migrate_legacy ≡ some migrate
      → Keeps P (provided (migrate principal scope))

module _ (s : MemoryService) (P : World s.provider.State → Type 0) (c : IsClosed s P) where
  pub reading-Keeps : {A : Type 0} (f : Repository → A) → Keeps P (reading f)
  unfolding reading
  reading-Keeps f = record { at = λ w h. h }

  pub clock_now-Keeps : Keeps P clock_now
  unfolding clock_now
  clock_now-Keeps = record { at = λ w h. h }

  writing-Keeps :
      {A : Type 0} (f : Repository → Repository × A)
      → ((n : ℕ) (r : Repository) → Step n r n (f r).0)
      → Keeps P (writing f)
  unfolding writing
  writing-Keeps f step = record {
    at = λ w h. c.stepped w w.uuids (f w.repository).0 (step w.uuids w.repository) h;
  }

  drawing-Keeps :
      {A : Type 0} (f : Uuid → Repository → Repository × A)
      → ((n : ℕ) (r : Repository) → Step n r (suc n) (f n r).0)
      → Keeps P (drawing f)
  unfolding drawing
  drawing-Keeps f step = record {
    at = λ w h. c.stepped w (suc w.uuids) (f w.uuids w.repository).0 (step w.uuids w.repository) h;
  }

  pub audit-Keeps :
      (principal action target_type target : String) (metadata : Fields)
      → Keeps P (audit s.host principal action target_type target metadata)
  unfolding audit
  audit-Keeps principal action target_type target metadata =
      writing-Keeps _
        (λ n r. Step.audit (lower s.host) principal action target_type target metadata)

  pub set_settings-Keeps :
      (principal : String) (v : UserMemorySettings)
      → Keeps P (writing (λ r. Spaces.set_settings r principal v))
  set_settings-Keeps principal v = writing-Keeps _ (λ n r. Step.set_settings principal v)

  pub transition_proposal-Keeps :
      (principal : String) (id : Uuid) (state : String) (content : Option String)
      → Keeps P (writing (λ r. Proposals.transition_proposal r principal id state content))
  transition_proposal-Keeps principal id state content =
      writing-Keeps _ (λ n r. Step.transition_proposal principal id state content)

  pub expire_proposals-Keeps :
      (now : Time) → Keeps P (writing (λ r. Proposals.expire_proposals r now))
  expire_proposals-Keeps now = writing-Keeps _ (λ n r. Step.expire_proposals now)

  pub set_record_status-Keeps :
      (principal : String) (id : Uuid) (status : String)
      → Keeps P (writing (λ r. (References.set_record_status r principal id status, tt)))
  set_record_status-Keeps principal id status =
      writing-Keeps _ (λ n r. Step.set_record_status principal id status)

  pub purge_record_content-Keeps :
      (principal : String) (id : Uuid)
      → Keeps P (writing (λ r. (References.purge_record_content r principal id, tt)))
  purge_record_content-Keeps principal id =
      writing-Keeps _ (λ n r. Step.purge_record_content principal id)

  pub set_bridge_consent-Keeps :
      (principal : String) (source target : Uuid) (a b : Bool)
      → Keeps P (writing (λ r. Bridges.set_bridge_consent r principal source target a b))
  set_bridge_consent-Keeps principal source target a b =
      writing-Keeps _ (λ n r. Step.set_bridge_consent principal source target a b)

  pub ensure_personal_space-Keeps :
      (principal namespace : String)
      → Keeps P (drawing (λ id r. Spaces.ensure_personal_space r id principal namespace))
  ensure_personal_space-Keeps principal namespace =
      drawing-Keeps _ (λ n r. Step.ensure_personal_space principal namespace)

  pub create_game_space-Keeps :
      (principal name namespace : String) (metadata : Fields)
      → Keeps P (drawing (λ id r. Spaces.create_game_space r id principal name namespace metadata))
  create_game_space-Keeps principal name namespace metadata =
      drawing-Keeps _ (λ n r. Step.create_game_space principal name namespace metadata)

  pub add_proposal-Keeps :
      (now : Time) (space : Uuid) (principal content experience : String) (hash : Option String)
      (metadata : Fields) (days : ℕ)
      → Keeps P (
          drawing (λ id r.
            Proposals.add_proposal r id now space principal content experience hash metadata days))
  add_proposal-Keeps now space principal content experience hash metadata days =
      drawing-Keeps _
        (λ n r. Step.add_proposal now space principal content experience hash metadata days)

  pub add_record_ref-Keeps :
      (space : Uuid) (principal record_id : String) (proposal : Option Uuid)
      (external : Option String) (provenance : Fields)
      → Keeps P (
          drawing (λ id r.
            References.add_record_ref r id space principal record_id proposal external provenance))
  add_record_ref-Keeps space principal record_id proposal external provenance =
      drawing-Keeps _
        (λ n r. Step.add_record_ref space principal record_id proposal external provenance)
