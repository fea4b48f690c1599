-- ===== src/Compiler.antt =====
-- The compiler from syntax trees to bytecode (src/compiler.rs: `Compiler`).
pub mod State
pub mod Emit
pub mod Operands
pub mod Opcodes
pub mod Simple
pub mod Control
pub mod Strict
pub mod Lower
pub mod Checks
pub mod Programs
pub mod Bytes
pub mod Output
pub mod Limits
pub mod Straight
pub mod Asm
pub mod Simples
pub mod Bindings
pub mod Scope
pub mod Branches
pub mod Loops
pub mod Statements
pub mod Jumps
pub mod Functions
pub mod Context
pub mod Contracts
pub mod Kept
pub mod KeptFlow
pub mod Accepted
pub mod Respected
pub mod Sound
pub mod Assigns
pub mod Matches
