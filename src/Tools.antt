-- ===== src/Tools.antt =====
-- tools/: the programs for a developer's desk.
pub mod C1linkDump
