-- ===== src/Structs.antt =====
-- client/openpak/friend_structs.cpp: the text helpers and builders of the friend service's structs.
pub mod Utf8
pub mod Json
pub mod Blob
pub mod Filter
mod Examples
