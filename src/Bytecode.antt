-- ===== src/Bytecode.antt =====
-- The bytecode: opcodes, operands, labels (src/compiler.rs and src/vm/engine.rs).
pub mod Op
pub mod Mnemonics
pub mod Float
pub mod Ext
pub mod Operand
pub mod RoundTrip
pub mod Scan
pub mod Code
