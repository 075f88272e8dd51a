-- ===== src/Machine.antt =====
-- The machine's definition: machine/machine.go.
pub mod Types
pub mod Options
pub mod Shape
pub mod Mac
pub mod Validate
pub mod Chain
pub mod Command
pub mod Args
pub mod Values
pub mod Slots
pub mod Contract
pub mod Fingerprint
pub mod Host
