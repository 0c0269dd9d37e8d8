-- ===== src/Audit.antt =====
-- The audit plugin, audit/: the fields of a log line.
pub mod Field
pub mod Query
pub mod Line
pub mod Config
pub mod Log
pub mod Export
pub mod Numbers
pub mod Selected
