-- ===== src/Mschap.antt =====
-- crates/mschapv2: the MSCHAPv2 engine. Text that is ASCII by construction, such as `S=...`, is
-- the list of its octets.
pub mod Crypto
pub mod Vsa
pub mod Exchange
pub mod Messages
