-- ===== src/Proof.antt =====
-- The proof of a candidate: src/changebridge/proof_gates.py and proof_control.py.
pub mod Gates
pub mod Assembly
pub mod Records
pub mod Completeness
pub mod Ledger
pub mod Change
pub mod Evidence
pub mod Forward
mod Tests
