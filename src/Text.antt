-- ===== src/Text.antt =====
-- Text routines: util/utf8.go and util/strings.go.
pub mod Utf8
pub mod Unescape
