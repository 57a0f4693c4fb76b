-- ===== src/Acquisition.antt =====
-- internal/acquisition: reconciliation of source records, and checkpoints.
pub mod Reconcile
pub mod Checkpoint
pub mod Import
