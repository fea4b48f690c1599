-- ===== src/Syntax/Stmt.antt =====
-- Statements (src/ast.rs: `Stmt`, `OpcodeStmt`, `AsmBlock`).
use cubelang.Base.{List, Option}
use cubelang.Base.Int.{ℤ}
use cubelang.Base.Text.{Text}
use cubelang.Bytecode.Ext.{ExtOp}
use cubelang.Syntax.Expr.{Span, TypeExpr, Expr}

pub data AssignOp : Type 0 where
  eq plus_eq minus_eq star_eq slash_eq : AssignOp

-- The right-hand side of `let`, which `for` builds too.
pub record LetStmt (F : Type 0) : Type 0 where
  pub name : Text
  pub ty : Option TypeExpr
  pub value : Expr F
  pub span : Span

pub record AssignStmt (F : Type 0) : Type 0 where
  pub target : Expr F
  pub op : AssignOp
  pub value : Expr F
  pub span : Span

pub record EmitStmt (F : Type 0) : Type 0 where
  pub event_name : Text
  pub fields : List (Text × Expr F)
  pub span : Span

pub record AssertStmt (F : Type 0) : Type 0 where
  pub condition : Expr F
  pub message : Option (Expr F)
  pub span : Span

pub data AsmOperand (F : Type 0) : Type 0 where
  named role global : Text → AsmOperand F
  imm : ℤ → AsmOperand F
  float_imm : F → AsmOperand F

pub record AsmInstr (F : Type 0) : Type 0 where
  pub mnemonic : Text
  pub operands : List (AsmOperand F)
  pub span : Span

pub record AsmBlock (F : Type 0) : Type 0 where
  pub instrs : List (AsmInstr F)
  pub span : Span

pub data ExtArg (F : Type 0) : Type 0 where
  reg : Text → ExtArg F
  val : Expr F → ExtArg F

-- `create x : number` and the other statements that are one opcode each.
pub data OpcodeStmt (F : Type 0) : Type 0 where
  create : Text → Text → OpcodeStmt F
  assign add sub mul div store : Text → Expr F → OpcodeStmt F
  sum push pop query remember : Text → OpcodeStmt F
  recall : Option Text → Expr F → OpcodeStmt F
  bind : Text → Text → Expr F → OpcodeStmt F
  unify bind_role compare : Text → Text → OpcodeStmt F
  transfer : Text → Text → Expr F → OpcodeStmt F
  extended : ExtOp → List (ExtArg F) → OpcodeStmt F

mutual
  pub data Stmt (F : Type 0) : Type 0 where
    let_ : LetStmt F → Stmt F
    assign : AssignStmt F → Stmt F
    if_ : Expr F → Stmts F → OptStmts F → Span → Stmt F
    for_ : Text → Expr F → Stmts F → Span → Stmt F
    while_ : Expr F → Stmts F → Span → Stmt F
    match_ : Expr F → Arms F → Span → Stmt F
    return : Option (Expr F) → Stmt F
    throw : Expr F → Stmt F
    emit : EmitStmt F → Stmt F
    opcode : OpcodeStmt F → Stmt F
    expr : Expr F → Stmt F
    try_catch : Stmts F → Option Text → Stmts F → OptStmts F → Span → Stmt F
    assert : AssertStmt F → Stmt F
    atomic : Stmts F → Span → Stmt F
    rollback commit : Stmt F
    asm : AsmBlock F → Stmt F

  pub data Stmts (F : Type 0) : Type 0 where
    no_stmts : Stmts F
    more_stmts : Stmt F → Stmts F → Stmts F

  -- An `else` or `finally` body, where there is one.
  pub data OptStmts (F : Type 0) : Type 0 where
    absent : OptStmts F
    present : Stmts F → OptStmts F

  -- The arms of a `match`: a pattern and a body each.
  pub data Arms (F : Type 0) : Type 0 where
    no_arms : Arms F
    more_arms : Expr F → Stmts F → Arms F → Arms F
