-- ===== src/Vm.antt =====
-- The virtual machine (src/vm/engine.rs, src/vm/registry.rs).
pub mod Value
pub mod Registry
pub mod State
pub mod Resolve
pub mod Frames
pub mod Data
pub mod Turn
pub mod Calls
pub mod Step
pub mod Exec
