-- ===== src/Repository/Invariant.antt =====
-- What holds of every state of the in-memory repository, table by table.
pub mod Facts
pub mod SpaceTable
pub mod ProposalTable
pub mod ReferenceTable
pub mod Frames
