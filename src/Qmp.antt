-- ===== src/Qmp.antt =====
-- The QMP client of cmd/spin-machine/main.go and the commands that hold one conversation each.
pub mod Wire
pub mod Session
pub mod Wait
pub mod Commands
pub mod Trace
pub mod Run
pub mod Logic
pub mod Rules
pub mod Steady
pub mod Watched
pub mod Dialled
pub mod Detaching
pub mod Migrating
pub mod Changing
pub mod Protocol
pub mod Served
pub mod Attaching
pub mod Closing
pub mod Live
pub mod Detached
pub mod Sizes
