-- ===== src/Verifier.antt =====
-- verifier/: the cache of named addresses, and the verifier that runs over it.
pub mod AddrCache
pub mod Run
