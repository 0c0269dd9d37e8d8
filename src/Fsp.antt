-- ===== src/Fsp.antt =====
-- The file-service plugin, fsp/.
pub mod Path
