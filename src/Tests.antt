-- ===== src/Tests.antt =====
-- A machine to run the model on, and the theorems at it.
pub mod Sample
pub mod Lines
pub mod Machines
mod Releases
mod Boots
mod Conversations
pub mod Tools
pub mod Reports
mod Hacks
mod Texts
mod Plans
