-- ===== src/Program.antt =====
-- Compiled programs (src/compiler.rs: `CompiledProgram`, `CompiledFunction`, `DebugLine`, `Access`).
use cubelang.Base.{ℕ, Bool, List}
use cubelang.Base.Text.{Text}

pub data Access : Type 0 where
  external internal system : Access

pub record DebugLine : Type 0 where
  pub offset : ℕ
  pub opcode : ℕ
  pub description : Text

pub record CompiledFunction : Type 0 where
  pub name : Text
  pub params : List Text
  pub bytecode : List ℕ
  pub labels : List (Text × ℕ)
  pub debug_lines : List DebugLine
  pub is_override : Bool
  pub access : Access
  pub once : Bool

pub record CompiledProgram : Type 0 where
  pub name : Text
  pub implements : List Text
  pub functions : List CompiledFunction
  pub storage_fields : List Text
  pub symbol_names : List Text
  pub used_modules : List Text
