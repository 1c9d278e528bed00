-- ===== src/Fixture.antt =====
-- Small concrete data for the examples: an arithmetic, a store, its engine.
pub mod Floats
pub mod Store
pub mod Tables
