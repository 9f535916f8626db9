-- ===== src/Types.antt =====
-- types/quality.go and types/addr.go: the information model.
-- A Go `error` is its text, and `none` stands for nil.
pub mod Quality
pub mod Addr
