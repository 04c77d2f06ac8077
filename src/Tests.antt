-- ===== src/Tests.antt =====
-- Runs on concrete data, and each theorem at a concrete input.
mod Demo
mod Repositories
mod Services
mod Choices
mod Routers
mod Identities
mod Contexts
mod Transforms
mod Overlays
mod Controls
mod Applying
mod Queues
