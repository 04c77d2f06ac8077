-- ===== src/Service/Guarantees.antt =====
-- What every sequence of calls of `MemoryService` guarantees.
use agent_ui.Prelude.{ℕ, String, Bool, List, Option, some, ◌≡◌, false, any, arith, Exec}
use agent_ui.Prelude.Keeps.{Keeps}
use agent_ui.Prelude.Json.{Fields, Float}
use agent_ui.Provider.{MemoryScope, Error}
use agent_ui.Repository.State.{Uuid, Repository}
use agent_ui.Repository.Steps.{Step, IsValid, Step-IsValid}
use agent_ui.Repository.Tombstones.{Knows, Step-Knows}
use agent_ui.Service.World.{MemoryService, World, provided}
use agent_ui.Service.Records.{is_secret}
use agent_ui.Service.Closed.Rules.{IsClosed}
use agent_ui.Service.Closed.Calls.{Call, is_game_event, perform_all, perform_all-Keeps}

-- What the methods of a provider keep, where `ingest` and `correct` are given no secret.
pub record ProviderKeeps (s : MemoryService) (Q : s.provider.State → Type 0) : Type 0 where
  pub ingested :
      (scope : MemoryScope) (content : String) (source : Option String) (metadata : Fields)
      (importance : Float) (record_id : Option String)
      → is_secret s content ≡ false
      → Keeps Q (s.provider.ingest scope content source metadata importance record_id)
  pub corrected :
      (scope : MemoryScope) (record_id content reason : String)
      → is_secret s content ≡ false
      → Keeps Q (s.provider.correct scope record_id content reason)
  pub loaded :
      (scope : MemoryScope) (query : String) (limit : ℕ)
      → Keeps Q (s.provider.context_load scope query limit)
  pub listed : (scope : MemoryScope) (all : Bool) → Keeps Q (s.provider.list_records scope all)
  pub forgotten :
      (scope : MemoryScope) (record_id reason : String)
      → Keeps Q (s.provider.forget scope record_id reason)
  pub purged :
      (scope : MemoryScope) (record_id reason : String)
      → Keeps Q (s.provider.purge scope record_id reason)
  pub exported : (scope : MemoryScope) → Keeps Q (s.provider.export scope)
  pub migrated :
      (migrate : String → MemoryScope → Exec s.provider.State Error ℕ) (principal : String)
      (scope : MemoryScope)
      → s.provider.migrate_legacy ≡ some migrate
      → Keeps Q (migrate principal scope)

provided-Keeps :
    {S A : Type 0} {Q : S → Type 0} (m : Exec S Error A)
    → Keeps Q m
    → Keeps (λ (w : World S). Q w.store) (provided m)
unfolding provided
provided-Keeps m k = record { at = λ w h. k.at w.store h }

pub store-IsClosed :
    (s : MemoryService) (Q : s.provider.State → Type 0)
    → ProviderKeeps s Q
    → IsClosed s (λ w. Q w.store)
store-IsClosed s Q k = record {
  stepped = λ w m t step h. h;
  ingested = λ scope content source metadata importance id clean.
      provided-Keeps _ (k.ingested scope content source metadata importance id clean);
  corrected =
      λ scope id content reason clean. provided-Keeps _ (k.corrected scope id content reason clean);
  loaded = λ scope query limit. provided-Keeps _ (k.loaded scope query limit);
  listed = λ scope all. provided-Keeps _ (k.listed scope all);
  forgotten = λ scope id reason. provided-Keeps _ (k.forgotten scope id reason);
  purged = λ scope id reason. provided-Keeps _ (k.purged scope id reason);
  exported = λ scope. provided-Keeps _ (k.exported scope);
  migrated = λ migrate principal scope e. provided-Keeps _ (k.migrated migrate principal scope e);
}

-- No sequence of service calls without a game event hands the provider a content with a probable
-- secret by `ingest` or `correct`: whatever the provider keeps under all other requests holds
-- after the calls.
pub perform_all-store :
    (s : MemoryService) (Q : s.provider.State → Type 0) (calls : List Call)
    (w : World s.provider.State)
    → ProviderKeeps s Q
    → any is_game_event calls ≡ false
    → Q w.store
    → Q (perform_all s calls w).store
perform_all-store s Q calls w k plain h =
    perform_all-Keeps s (λ v. Q v.store) (store-IsClosed s Q k) calls
      (λ game. absurd (ground arith)) w h

-- What a provider does to its own state is nothing to the repository.
module _ (s : MemoryService) (R : ℕ → Repository → Type 0)
    (steps : (n m : ℕ) (r t : Repository) → Step n r m t → R n r → R m t) where
  abbrev pub OfRepository : World s.provider.State → Type 0
  OfRepository w = R w.uuids w.repository

  provided-OfRepository :
      {A : Type 0} (m : Exec s.provider.State Error A) → Keeps OfRepository (provided m)
  unfolding provided
  provided-OfRepository m = record { at = λ w h. h }

  pub repository-IsClosed : IsClosed s OfRepository
  repository-IsClosed = record {
    stepped = λ w m t step h. steps w.uuids m w.repository t step h;
    ingested = λ scope content source metadata importance id clean. provided-OfRepository _;
    corrected = λ scope id content reason clean. provided-OfRepository _;
    loaded = λ scope query limit. provided-OfRepository _;
    listed = λ scope all. provided-OfRepository _;
    forgotten = λ scope id reason. provided-OfRepository _;
    purged = λ scope id reason. provided-OfRepository _;
    exported = λ scope. provided-OfRepository _;
    migrated = λ migrate principal scope e. provided-OfRepository _;
  }

  perform_all-OfRepository :
      (calls : List Call) (w : World s.provider.State)
      → OfRepository w
      → OfRepository (perform_all s calls w)
  perform_all-OfRepository calls w h =
      perform_all-Keeps s OfRepository repository-IsClosed calls
        (λ game. record {
          ingested = λ scope content source metadata importance id. provided-OfRepository _;
        })
        w h

-- Any calls of the service, with any provider, returning or raising, keep a well-formed repository
-- well-formed.
pub perform_all-IsValid :
    (s : MemoryService) (calls : List Call) (w : World s.provider.State)
    → IsValid w.uuids w.repository
    → IsValid (perform_all s calls w).uuids (perform_all s calls w).repository
perform_all-IsValid s calls w v =
    perform_all-OfRepository s IsValid (λ n m r t step h. Step-IsValid step h) calls w v

-- An external id known in a space of a well-formed repository stays known through any calls of the
-- service.
pub perform_all-Knows :
    (s : MemoryService) (calls : List Call) (w : World s.provider.State) (principal : String)
    (space : Uuid) (external : String)
    → IsValid w.uuids w.repository
    → Knows w.repository principal space external
    → Knows (perform_all s calls w).repository principal space external
perform_all-Knows s calls w principal space external v h =
    (perform_all-OfRepository s (λ n r. IsValid n r × Knows r principal space external)
      (λ n m r t step p. (Step-IsValid step p.0, Step-Knows principal space external step p.0 p.1))
      calls w (v, h)).1
