-- ===== src/Structs/Json/Encoding.antt =====
-- A JSON string literal is UTF-8 where its text is.
use openpak_client.Shared.{nat_eq, text_eq}
