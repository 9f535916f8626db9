-- ===== src/Dig.antt =====
-- dig/: the names on the attached networks, the digger, and the map of named addresses that the
-- consumers of its news keep.
pub mod Networks
pub mod Digger
pub mod AddrMap
