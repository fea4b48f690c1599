-- ===== src/Syntax.antt =====
-- The syntax tree (src/ast.rs) and the source positions (src/token.rs). A tree that holds a list of
-- itself has a type of its own for that list.
pub mod Expr
pub mod Stmt
pub mod Decl
