-- ===== src/Safety.antt =====
-- Which parts of a run may panic (src/renew.rs, with all that it calls).
pub mod Files
pub mod Dns
pub mod Orders
pub mod Solvers
pub mod Lookups
pub mod Challenges
pub mod Keys
pub mod Builds
pub mod Issues
pub mod Runs
pub mod Turns
pub mod Loop
