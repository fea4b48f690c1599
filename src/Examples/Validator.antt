-- ===== src/Examples/Validator.antt =====
-- A run of the validator's theorem: a `predict` within a loop.
use cubelang.Base.{[], ◌∷◌, Bool, ◌≡◌, ◌↔◌, All, true, false}
use cubelang.Base.Text.{lit}
use cubelang.Bytecode.Ext.{ExtOp}
use cubelang.Syntax.Expr.{Span, TypeExpr, ident}
use cubelang.Syntax.Stmt.{OpcodeStmt, Stmts, while_, opcode, more_stmts, no_stmts}
use cubelang.Syntax.Decl.{ProgramItem, TopLevel, SourceFile}
use cubelang.Validator.{validate, is_clean, finding_count}
use cubelang.Validator.Clean.{FileExecutes, validate-FileExecutes}

abbrev here : Span
here = record { line = 1; col = 1; offset = 0 }

abbrev looping : Stmts Bool
looping =
    more_stmts
      (while_ (ident (lit "x"))
        (more_stmts (opcode (OpcodeStmt.extended ExtOp.predict [])) no_stmts) here)
      no_stmts

abbrev predicting : SourceFile Bool
predicting = record {
  items =
      TopLevel.program (record {
        name = lit "P";
        implements = [];
        body =
            ProgramItem.function (record {
              sig = record {
                permissions = [];
                modifiers = [];
                name = lit "f";
                params = [];
                return_type = TypeExpr.void;
                is_override = false;
                span = here;
              };
              body = looping;
            })
            ∷ [];
        span = here;
      })
      ∷ [];
}

validate-FileExecutes_example :
    ((is_clean (validate predicting) ≡ true) ↔ (finding_count (validate predicting) ≡ 0))
    × ((finding_count (validate predicting) ≡ 0) ↔ All FileExecutes predicting.items)
validate-FileExecutes_example = validate-FileExecutes predicting
