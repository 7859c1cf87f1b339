-- ===== src/Cutover.antt =====
-- The decision to cut over: src/changebridge/schema.py, reconciliation.py and cutover.py.
pub mod Schema
pub mod Preorder
pub mod Reconciliation
pub mod Agreement
pub mod Gate
mod Tests
