-- ===== src/Service/World.antt =====
-- What a method of `MemoryService` runs on: the repository, the provider's state, the draws of
-- `uuid4`, and the clock. A method reads the clock once per use and time stands still within it.
use agent_ui.Prelude.{ℕ, suc, String, Exec, ok}
use agent_ui.Host.{Host, lower}
use agent_ui.MemoryConfig.{MemoryConfig}
use agent_ui.Provider.{MemoryProvider, Error}
use agent_ui.Prelude.Json.{Fields}
use agent_ui.Repository.State.{Uuid, Time, Repository}
use agent_ui.Repository.Spaces

-- `MemoryService.__init__`, with the machine that it runs on.
pub record MemoryService : Type 1 where
  pub host : Host
  pub config : MemoryConfig
  pub provider : MemoryProvider
  pub subject_hmac_fallback : String

pub record World (S : Type 0) : Type 0 where
  pub repository : Repository
  pub store : S
  pub uuids : ℕ
  pub clock : Time

module _ {S A : Type 0} where
  -- A method of the repository that reads.
  unfoldable pub reading : (Repository → A) → Exec (World S) Error A
  reading f w = (ok (f w.repository), w)

  -- A method of the repository that writes and draws no UUID.
  unfoldable pub writing : (Repository → Repository × A) → Exec (World S) Error A
  writing f w = (ok (f w.repository).1, record w { repository = (f w.repository).0 })

  -- A method of the repository that may draw a UUID. A draw that is not needed is skipped.
  unfoldable pub drawing : (Uuid → Repository → Repository × A) → Exec (World S) Error A
  drawing f w = (
    ok (f w.uuids w.repository).1,
    record w { repository = (f w.uuids w.repository).0; uuids = suc w.uuids },
  )

  -- A method of the provider.
  unfoldable pub provided : Exec S Error A → Exec (World S) Error A
  provided m w = let (r, s) = m w.store in (r, record w { store = s })

module _ {S : Type 0} where
  unfoldable pub clock_now : Exec (World S) Error Time
  clock_now w = (ok w.clock, w)

  -- `await self.repository.audit(...)`
  unfoldable pub audit :
      Host → String → String → String → String → Fields → Exec (World S) Error Unit
  unfolding writing
  audit host principal action target_type target metadata =
      writing λ r. (Spaces.audit (lower host) r principal action target_type target metadata, tt)
