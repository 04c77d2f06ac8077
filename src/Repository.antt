-- ===== src/Repository.antt =====
-- `InMemoryMemoryRepository`: services/gateway/src/local_ai_hub/memory_repository.py. Its state and
-- its methods, by table; the proofs stand in the other children.
pub mod State
pub mod Spaces
pub mod Proposals
pub mod References
pub mod Bridges
pub mod Invariant
pub mod Steps
pub mod Lifecycle
pub mod Tombstones
pub mod Personal
pub mod Consent
