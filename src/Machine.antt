-- ===== src/Machine.antt =====
-- State machines of packages/machine/src.
pub mod Definition
pub mod Repository
pub mod Laws
pub mod Moves
pub mod Tests
