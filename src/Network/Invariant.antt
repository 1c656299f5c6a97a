-- ===== src/Network/Invariant.antt =====
-- What holds of every world that a run of the server reaches, in any order of its steps.
pub mod Store
pub mod StoreSteps
pub mod Watch
pub mod Local
