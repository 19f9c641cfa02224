-- ===== src/Dns.antt =====
-- src/dns: records, their conversion and the update client.
pub mod Rdata
pub mod Update
pub mod Tsig
