-- ===== src/Validator.antt =====
-- The `validate` subcommand's walk over the syntax tree (src/validate.rs).
pub mod Clean
use cubelang.Base.{ℕ, ◌+◌, List, [], ◌∷◌, ◌++◌, Bool, true, false, ◌&&◌, length, map, if◌then◌else◌}
use cubelang.Base.Text.{Text}
use cubelang.Bytecode.Ext.{ext_name, is_trace_only_ext_op}
use cubelang.Syntax.Stmt.{
  OpcodeStmt, Stmt, Stmts, OptStmts, Arms, if_, for_, while_, match_, opcode, try_catch, atomic,
  no_stmts, more_stmts, absent, present, no_arms, more_arms,
}
use cubelang.Syntax.Decl.{FunctionDecl, ProgramItem, ProgramDecl, TopLevel, SourceFile}

pub data Finding : Type 0 where
  trace_only_opcode : Text → Finding
  unify_opcode : Finding

pub record FunctionReport : Type 0 where
  pub name : Text
  pub findings : List Finding

pub record ProgramReport : Type 0 where
  pub name : Text
  pub functions : List FunctionReport

pub record ValidationReport : Type 0 where
  pub programs : List ProgramReport

abbrev pub is_empty : List Finding → Bool
is_empty [] = true
is_empty (f ∷ fs) = false

unfoldable pub functions_clean : List FunctionReport → Bool
functions_clean [] = true
functions_clean (f ∷ fs) = is_empty f.findings && functions_clean fs

unfoldable pub programs_clean : List ProgramReport → Bool
programs_clean [] = true
programs_clean (p ∷ ps) = functions_clean p.functions && programs_clean ps

unfoldable pub is_clean : ValidationReport → Bool
is_clean r = programs_clean r.programs

unfoldable pub count_functions : List FunctionReport → ℕ
count_functions [] = 0
count_functions (f ∷ fs) = length f.findings + count_functions fs

unfoldable pub count_programs : List ProgramReport → ℕ
count_programs [] = 0
count_programs (p ∷ ps) = count_functions p.functions + count_programs ps

unfoldable pub finding_count : ValidationReport → ℕ
finding_count r = count_programs r.programs

module _ {F : Type 0} where
  unfoldable pub walk_opcode : OpcodeStmt F → List Finding
  walk_opcode (OpcodeStmt.extended op args) =
      if is_trace_only_ext_op op then trace_only_opcode (ext_name op) ∷ [] else []
  walk_opcode (OpcodeStmt.unify a b) = unify_opcode ∷ []
  walk_opcode _ = []

  -- The findings of a statement in their order; a `finally` body is not walked.
  unfoldable mutual
    pub walk_stmt : Stmt F → List Finding
    walk_stmt (for_ b e ss span) = walk_stmts ss
    walk_stmt (match_ e arms span) = walk_arms arms
    walk_stmt (while_ e ss span) = walk_stmts ss
    walk_stmt (if_ e ts es span) = walk_stmts ts ++ walk_opt es
    walk_stmt (atomic ss span) = walk_stmts ss
    walk_stmt (try_catch ts b cs fs span) = walk_stmts ts ++ walk_stmts cs
    walk_stmt (opcode o) = walk_opcode o
    walk_stmt _ = []

    pub walk_stmts : Stmts F → List Finding
    walk_stmts no_stmts = []
    walk_stmts (more_stmts s ss) = walk_stmt s ++ walk_stmts ss

    pub walk_opt : OptStmts F → List Finding
    walk_opt absent = []
    walk_opt (present ss) = walk_stmts ss

    pub walk_arms : Arms F → List Finding
    walk_arms no_arms = []
    walk_arms (more_arms p ss arms) = walk_stmts ss ++ walk_arms arms

  unfoldable pub validate_function : FunctionDecl F → FunctionReport
  validate_function f = record { name = f.sig.name; findings = walk_stmts f.body }

  unfoldable pub validate_items : List (ProgramItem F) → List FunctionReport
  validate_items [] = []
  validate_items (ProgramItem.function f ∷ items) = validate_function f ∷ validate_items items
  validate_items (ProgramItem.constructor f ∷ items) = validate_function f ∷ validate_items items
  validate_items (_ ∷ items) = validate_items items

  unfoldable pub validate_program : ProgramDecl F → ProgramReport
  validate_program p = record { name = p.name; functions = validate_items p.body }

  unfoldable pub validate_programs : List (TopLevel F) → List ProgramReport
  validate_programs [] = []
  validate_programs (TopLevel.program p ∷ items) = validate_program p ∷ validate_programs items
  validate_programs (_ ∷ items) = validate_programs items

  -- The report of a parsed file.
  unfoldable pub validate : SourceFile F → ValidationReport
  validate source = record { programs = validate_programs source.items }
