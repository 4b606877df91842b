-- ===== src/Generation.antt =====
-- src/engine: what the generation loop decides about each produced token.
pub mod StopStrings
pub mod StopChecker
pub mod Batch
