-- ===== src/Compiler/State.antt =====
-- The state of the compiler and its errors (src/compiler.rs: `Compiler`). An error is what its
-- message says; the two kinds of it go to different lists.
use cubelang.Base.{ℕ, List, [], ◌∷◌, ◌++◌, Bool, true, false, Option, none}
use cubelang.Base.Text.{Text}
use cubelang.Base.Dict.{Dict}
use cubelang.Bytecode.Ext.{ExtOp}
use cubelang.Program.{DebugLine}
use cubelang.Syntax.Expr.{Span, Expr}
use cubelang.Syntax.Stmt.{AssignOp}
use cubelang.Syntax.Decl.{InterfaceDecl, Permission}

pub data Message (F : Type 0) : Type 0 where
  -- the expression's form, and where it stands
  not_encodable : Text → Text → Text → Message F
  compound_index : AssignOp → Text → Message F
  bad_target : Expr F → Message F
  unknown_mnemonic : Text → Message F
  no_implements : Text → Message F
  unknown_interface : Text → Text → Message F
  missing_member : Text → Text → Text → ℕ → Message F
  invalid_override : Text → List Text → Message F
  sealed_collision : Text → Text → Message F

pub record ParseError (F : Type 0) : Type 0 where
  pub message : Message F
  pub span : Span

-- What `--strict` refuses.
pub data Construct (F : Type 0) : Type 0 where
  trace_only : ExtOp → Construct F
  unify assertion throw : Construct F
  no_effect : Expr F → Construct F
  attribute : Permission → Text → Construct F

pub record StrictError (F : Type 0) : Type 0 where
  pub construct : Construct F
  pub line : Option ℕ
  pub program : Text
  pub function : Text

pub record Compiler (F : Type 0) : Type 0 where
  pub bytecode : List ℕ
  pub labels : List (Text × ℕ)
  pub debug_lines : List DebugLine
  pub label_counter : ℕ
  pub strict : Bool
  pub strict_errors : List (StrictError F)
  pub current_program : Text
  pub current_function : Text
  pub symbol_names : List Text
  pub used_modules : List Text
  pub capability_errors : List (ParseError F)
  pub inline_interfaces : Dict Text InterfaceDecl
  pub interface_errors : List (ParseError F)
  pub asm_errors : List (ParseError F)
  pub operand_errors : List (ParseError F)
  pub current_span : Option Span

module _ {F : Type 0} where
  abbrev pub new : Compiler F
  new = record {
    bytecode = [];
    labels = [];
    debug_lines = [];
    label_counter = 0;
    strict = false;
    strict_errors = [];
    current_program = [];
    current_function = [];
    symbol_names = [];
    used_modules = [];
    capability_errors = [];
    inline_interfaces = [];
    interface_errors = [];
    asm_errors = [];
    operand_errors = [];
    current_span = none;
  }

  abbrev pub new_strict : Compiler F
  new_strict = record new { strict = true }

  unfoldable pub strict_violation : Construct F → Option ℕ → Compiler F → Compiler F
  strict_violation what line c = record c {
    strict_errors =
        c.strict_errors
        ++ (record {
          construct = what;
          line = line;
          program = c.current_program;
          function = c.current_function;
        })
          ∷ [];
  }
