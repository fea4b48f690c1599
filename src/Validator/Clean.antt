-- ===== src/Validator/Clean.antt =====
-- What a clean report says of the statements (src/validate.rs: `walk_stmt`, `is_clean`,
-- `finding_count`).
use cubelang.Base.{
  ℕ, ◌+◌, List, [], ◌∷◌, ◌++◌, Bool, true, false, ◌&&◌, length, ◌≡◌, ◌↔◌, refl, All, arith,
}
use cubelang.Bytecode.Ext.{is_trace_only_ext_op}
use cubelang.Syntax.Stmt.{
  OpcodeStmt, Stmt, Stmts, OptStmts, Arms, if_, for_, while_, match_, opcode, try_catch, atomic,
  no_stmts, more_stmts, absent, present, no_arms, more_arms,
}
use cubelang.Syntax.Decl.{FunctionDecl, ProgramItem, TopLevel, SourceFile}
use cubelang.Validator.{
  Finding, is_empty, FunctionReport, ProgramReport, functions_clean, programs_clean, is_clean,
  count_functions, count_programs, finding_count, walk_opcode, walk_stmt, walk_stmts, walk_opt,
  walk_arms, validate_function, validate_items, validate_program, validate_programs, validate,
}

append-nil_iff : (xs ys : List Finding) → (xs ++ ys ≡ []) ↔ ((xs ≡ []) × (ys ≡ []))
append-nil_iff [] ys = ((λ e. (refl, e)), (λ h. h.1))
append-nil_iff (x ∷ xs) ys = ((λ e. cc), (λ h. cc))

-- Two parts have no finding where each has none.
both :
    (xs ys : List Finding) (P Q : Type 0)
    → (xs ≡ []) ↔ P
    → (ys ≡ []) ↔ Q
    → (xs ++ ys ≡ []) ↔ (P × Q)
both xs ys P Q p q =
    let split = append-nil_iff xs ys in
    ((λ e. (p.0 (split.0 e).0, q.0 (split.0 e).1)), (λ h. split.1 (p.1 h.0, q.1 h.1)))

abbrev Nothing : Type 0
Nothing = Unit

nothing : (◌≡◌ {A = List Finding} [] []) ↔ Nothing
nothing = ((λ e. tt), (λ h. refl))

count-is_empty : (fs : List Finding) → (length fs ≡ 0) ↔ (fs ≡ [])
count-is_empty [] = ((λ e. refl), (λ e. refl))
count-is_empty (f ∷ fs) = ((λ e. absurd (omega arith)), (λ e. cc))

-- A sum is zero where each part is.
zero_sum : (m n : ℕ) (P Q : Type 0) → (m ≡ 0) ↔ P → (n ≡ 0) ↔ Q → (m + n ≡ 0) ↔ (P × Q)
zero_sum m n P Q p q = (
  (λ e. (p.0 (omega arith), q.0 (omega arith))),
  (λ h. let e = p.1 h.0 in let f = q.1 h.1 in omega arith),
)

module _ {F : Type 0} where
  -- An opcode statement that is neither `unify` nor trace-only; an `asm` block is neither.
  abbrev pub IsExecuted : OpcodeStmt F → Type 0
  IsExecuted (OpcodeStmt.extended op args) = is_trace_only_ext_op op ≡ false
  IsExecuted (OpcodeStmt.unify a b) = ⊥
  IsExecuted _ = Unit

  -- No opcode statement within is `unify` or trace-only, `finally` bodies aside.
  abbrev mutual
    pub Executes : Stmt F → Type 0
    Executes (for_ b e ss span) = AllExecute ss
    Executes (match_ e arms span) = ArmsExecute arms
    Executes (while_ e ss span) = AllExecute ss
    Executes (if_ e ts es span) = AllExecute ts × OptExecute es
    Executes (atomic ss span) = AllExecute ss
    Executes (try_catch ts b cs fs span) = AllExecute ts × AllExecute cs
    Executes (opcode o) = IsExecuted o
    Executes _ = Unit

    pub AllExecute : Stmts F → Type 0
    AllExecute no_stmts = Unit
    AllExecute (more_stmts s ss) = Executes s × AllExecute ss

    pub OptExecute : OptStmts F → Type 0
    OptExecute absent = Unit
    OptExecute (present ss) = AllExecute ss

    pub ArmsExecute : Arms F → Type 0
    ArmsExecute no_arms = Unit
    ArmsExecute (more_arms p ss arms) = AllExecute ss × ArmsExecute arms

  abbrev pub ItemExecutes : ProgramItem F → Type 0
  ItemExecutes (ProgramItem.function f) = AllExecute f.body
  ItemExecutes (ProgramItem.constructor f) = AllExecute f.body
  ItemExecutes _ = Unit

  abbrev pub FileExecutes : TopLevel F → Type 0
  FileExecutes (TopLevel.program p) = All ItemExecutes p.body
  FileExecutes _ = Unit

  walk_opcode-IsExecuted : (o : OpcodeStmt F) → (walk_opcode o ≡ []) ↔ IsExecuted o
  unfolding walk_opcode
  walk_opcode-IsExecuted (OpcodeStmt.extended op args) = ground arith
  walk_opcode-IsExecuted (OpcodeStmt.unify a b) = ((λ e. cc), (λ h. absurd h))
  walk_opcode-IsExecuted o = ((λ e. tt), (λ h. refl))

  mutual
    unfolding walk_stmt walk_stmts walk_opt walk_arms

    walk_stmt-Executes : (s : Stmt F) → (walk_stmt s ≡ []) ↔ Executes s
    walk_stmt-Executes (for_ b e ss span) = walk_stmts-AllExecute ss
    walk_stmt-Executes (match_ e arms span) = walk_arms-ArmsExecute arms
    walk_stmt-Executes (while_ e ss span) = walk_stmts-AllExecute ss
    walk_stmt-Executes (if_ e ts es span) =
        both _ _ _ _ (walk_stmts-AllExecute ts) (walk_opt-OptExecute es)
    walk_stmt-Executes (atomic ss span) = walk_stmts-AllExecute ss
    walk_stmt-Executes (try_catch ts b cs fs span) =
        both _ _ _ _ (walk_stmts-AllExecute ts) (walk_stmts-AllExecute cs)
    walk_stmt-Executes (opcode o) = walk_opcode-IsExecuted o
    walk_stmt-Executes s = nothing

    walk_stmts-AllExecute : (ss : Stmts F) → (walk_stmts ss ≡ []) ↔ AllExecute ss
    walk_stmts-AllExecute no_stmts = nothing
    walk_stmts-AllExecute (more_stmts s ss) =
        both _ _ _ _ (walk_stmt-Executes s) (walk_stmts-AllExecute ss)

    walk_opt-OptExecute : (ss : OptStmts F) → (walk_opt ss ≡ []) ↔ OptExecute ss
    walk_opt-OptExecute absent = nothing
    walk_opt-OptExecute (present ss) = walk_stmts-AllExecute ss

    walk_arms-ArmsExecute : (arms : Arms F) → (walk_arms arms ≡ []) ↔ ArmsExecute arms
    walk_arms-ArmsExecute no_arms = nothing
    walk_arms-ArmsExecute (more_arms p ss arms) =
        both _ _ _ _ (walk_stmts-AllExecute ss) (walk_arms-ArmsExecute arms)

  count_function : (f : FunctionDecl F) → (length (walk_stmts f.body) ≡ 0) ↔ AllExecute f.body
  count_function f =
      let a = count-is_empty (walk_stmts f.body) in
      let b = walk_stmts-AllExecute f.body in ((λ e. b.0 (a.0 e)), (λ h. a.1 (b.1 h)))

  count_items :
      (items : List (ProgramItem F))
      → (count_functions (validate_items items) ≡ 0) ↔ All ItemExecutes items
  unfolding count_functions validate_items validate_function
  count_items [] = ((λ e. tt), (λ h. refl))
  count_items (ProgramItem.function f ∷ items) =
      zero_sum _ _ _ _ (count_function f) (count_items items)
  count_items (ProgramItem.constructor f ∷ items) =
      zero_sum _ _ _ _ (count_function f) (count_items items)
  count_items (ProgramItem.storage s ∷ items) =
      let h = count_items items in ((λ e. (tt, h.0 e)), (λ k. h.1 k.1))
  count_items (ProgramItem.type_alias t ∷ items) =
      let h = count_items items in ((λ e. (tt, h.0 e)), (λ k. h.1 k.1))

  count_file :
      (items : List (TopLevel F))
      → (count_programs (validate_programs items) ≡ 0) ↔ All FileExecutes items
  unfolding count_programs validate_programs validate_program
  count_file [] = ((λ e. tt), (λ h. refl))
  count_file (TopLevel.program p ∷ items) = zero_sum _ _ _ _ (count_items p.body) (count_file items)
  count_file (item ∷ items) = let h = count_file items in ((λ e. (tt, h.0 e)), (λ k. h.1 k.1))

-- A conjunction holds where a sum is zero.
and_sum :
    (a b : Bool) (m n : ℕ)
    → (a ≡ true) ↔ (m ≡ 0)
    → (b ≡ true) ↔ (n ≡ 0)
    → ((a && b) ≡ true) ↔ (m + n ≡ 0)
and_sum true b m n p q =
    ((λ e. let z = p.0 refl in let y = q.0 e in omega arith), (λ e. q.1 (omega arith)))
and_sum false b m n p q = ((λ e. cc), (λ e. p.1 (omega arith)))

is_empty-length : (xs : List Finding) → (is_empty xs ≡ true) ↔ (length xs ≡ 0)
is_empty-length [] = ((λ e. refl), (λ e. refl))
is_empty-length (x ∷ xs) = ((λ e. cc), (λ e. absurd (omega arith)))

functions_clean-count :
    (fs : List FunctionReport) → (functions_clean fs ≡ true) ↔ (count_functions fs ≡ 0)
unfolding functions_clean count_functions
functions_clean-count [] = ((λ e. refl), (λ e. refl))
functions_clean-count (f ∷ fs) =
    and_sum _ _ _ _ (is_empty-length f.findings) (functions_clean-count fs)

programs_clean-count :
    (ps : List ProgramReport) → (programs_clean ps ≡ true) ↔ (count_programs ps ≡ 0)
unfolding programs_clean count_programs
programs_clean-count [] = ((λ e. refl), (λ e. refl))
programs_clean-count (p ∷ ps) =
    and_sum _ _ _ _ (functions_clean-count p.functions) (programs_clean-count ps)

-- The validation of a file is clean exactly where it counts no finding, and that is exactly where no
-- function of its programs holds an opcode statement with a trace-only opcode or a `unify`, in
-- whatever branch, arm or loop, except in `finally` bodies. An `asm` block is not looked into.
pub validate-FileExecutes :
    {F : Type 0} (source : SourceFile F)
    → ((is_clean (validate source) ≡ true) ↔ (finding_count (validate source) ≡ 0))
      × ((finding_count (validate source) ≡ 0) ↔ All FileExecutes source.items)
unfolding is_clean finding_count validate
validate-FileExecutes source =
    (programs_clean-count (validate_programs source.items), count_file source.items)
