-- ===== src/Service/Closed.antt =====
-- Predicates that every step of a method keeps are kept by the methods.
pub mod Rules
pub mod Methods
pub mod Review
pub mod Calls
