-- ===== src/Solver.antt =====
-- src/solver: how challenges are presented and cleaned up.
pub mod Dns01
pub mod Http01
pub mod Records
pub mod Server
pub mod TlsAlpn01
pub mod Any
pub mod Standalone
