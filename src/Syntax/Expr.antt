-- ===== src/Syntax/Expr.antt =====
-- Types and expressions (src/ast.rs: `TypeExpr`, `Expr`).
use cubelang.Base.{ℕ, Bool, List, [], ◌∷◌}
use cubelang.Base.Int.{ℤ}
use cubelang.Base.Text.{Text}

pub record Span : Type 0 where
  pub line : ℕ
  pub col : ℕ
  pub offset : ℕ

mutual
  pub data TypeExpr : Type 0 where
    named : Text → TypeExpr
    array set promise channel nullable : TypeExpr → TypeExpr
    map : TypeExpr → TypeExpr → TypeExpr
    tuple union : TypeExprs → TypeExpr
    fn : TypeExprs → TypeExpr → TypeExpr
    void : TypeExpr

  pub data TypeExprs : Type 0 where
    no_types : TypeExprs
    more_types : TypeExpr → TypeExprs → TypeExprs

pub record Param : Type 0 where
  pub name : Text
  pub ty : TypeExpr
  pub span : Span

pub data BinOp : Type 0 where
  add sub mul div modulo eq not_eq lt gt lt_eq gt_eq and or : BinOp

pub data UnaryOp : Type 0 where
  neg not : UnaryOp

mutual
  pub data Expr (F : Type 0) : Type 0 where
    int_lit : ℤ → Expr F
    float_lit : F → Expr F
    string_lit : Text → Expr F
    bool_lit : Bool → Expr F
    null : Expr F
    ident : Text → Expr F
    self_access : Text → Expr F
    field : Expr F → Text → Expr F
    index : Expr F → Expr F → Expr F
    call : Expr F → Exprs F → Expr F
    method_call : Expr F → Text → Exprs F → Expr F
    bin_op : Expr F → BinOp → Expr F → Expr F
    unary_op : UnaryOp → Expr F → Expr F
    struct_lit : Text → ExprFields F → Expr F
    array_lit : Exprs F → Expr F
    map_lit : ExprPairs F → Expr F
    lambda : List Param → Expr F → Expr F
    await : Expr F → Expr F
    deploy : Text → Exprs F → Expr F
    proxy : Text → ExprFields F → Expr F

  pub data Exprs (F : Type 0) : Type 0 where
    no_exprs : Exprs F
    more_exprs : Expr F → Exprs F → Exprs F

  pub data ExprFields (F : Type 0) : Type 0 where
    no_fields : ExprFields F
    more_fields : Text → Expr F → ExprFields F → ExprFields F

  pub data ExprPairs (F : Type 0) : Type 0 where
    no_pairs : ExprPairs F
    more_pairs : Expr F → Expr F → ExprPairs F → ExprPairs F

abbrev pub exprs : {F : Type 0} → Exprs F → List (Expr F)
exprs no_exprs = []
exprs (more_exprs e es) = e ∷ exprs es
