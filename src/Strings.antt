-- ===== src/Strings.antt =====
-- Routines of dttools on texts.
pub mod Path
pub mod Url
pub mod Quotes
pub mod Match
pub mod Search
