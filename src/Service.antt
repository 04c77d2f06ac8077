-- ===== src/Service.antt =====
-- `MemoryService`: services/gateway/src/local_ai_hub/memory_service.py. The methods by subject; the
-- proofs stand in the other children.
pub mod World
pub mod Candidates
pub mod Access
pub mod Records
pub mod Import
pub mod Review
pub mod Capture
pub mod Sharing
pub mod Closed
pub mod Guarantees
pub mod Outcomes
pub mod Skips
pub mod Approval
