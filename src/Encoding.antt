-- ===== src/Encoding.antt =====
-- base64 and serde, as far as the program calls them.
pub mod Base64
pub mod Serde
pub mod Json
