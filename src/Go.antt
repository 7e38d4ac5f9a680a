-- ===== src/Go.antt =====
-- The functions of Go's own library that the plugin computes with: texts, paths and addresses.
pub mod Strings
pub mod FilePath
pub mod Cidr
pub mod Reflect
