-- ===== src/Lib.antt =====
-- Verification library for CubeLang, a language whose programs compile to a bytecode that a virtual
-- machine with an associative memory runs (the Rust crate: src/compiler.rs, src/vm/).
--
-- How the program hangs together. The loader merges a file with what it imports into one syntax
-- tree; the validator reports what in it the machine would only trace. The compiler checks the
-- declarations of each program and lowers each function, and emits instructions as an opcode byte,
-- an operand count and tagged operands in which names are two bytes of a BLAKE3 hash; a compiled
-- program is saved in the `.cubebin` format. The machine loads programs, fills a table from hashes to names,
-- scans a function's code for labels, and interprets it turn by turn: values in registers, a stack,
-- storage, a hippocampal memory (keys to vectors, nearest vector to payload), a knowledge store, and
-- frames that superpose bound role and filler vectors. CALL runs a sibling function or a native one
-- of a used module, ASK suspends, and budgets bound a run.
--
-- Which file is which part:
--   Base/*            shared helpers: tests, lists, dictionaries for `HashMap`, 64-bit integers, texts
--   Program           `CompiledProgram`, `CompiledFunction`, `Access` (src/compiler.rs)
--   Bytecode/Op, Ext  `mod op`, `asm_mnemonic_to_op`, `ext_bytecode` (src/compiler.rs, src/ast.rs)
--   Syntax/*          the syntax tree (src/ast.rs)
--   Interfaces        `InterfaceRegistry` (src/vm/interfaces.rs)
--   Compiler/State, Emit, Operands, Opcodes, Simple, Control, Strict, Lower
--                     `Compiler` and the lowering of statements, over passes from state to state
--                     (src/compiler.rs); Bytes, Output, Limits, Straight, Asm, Simples, Assigns,
--                     Bindings, Scope, Branches, Matches, Loops, Statements, Jumps, Functions and
--                     Sound hold the proofs on the code that they write
--   Compiler/Checks, Programs
--                     `check_*`, `compile_function`, `compile_program`, `compile_ast`,
--                     `compile_ast_strict` (src/compiler.rs); Context, Kept, KeptFlow, Contracts,
--                     Respected and Accepted hold the proofs on what the checks accept
--   Loader            `load`, `load_into` (src/loader.rs); Names and Depth hold proofs
--   Validator         `validate` (src/validate.rs); Clean holds proofs
--   Bytecode/Float    the operations on `f64`, an interface
--   Bytecode/Operand  `emit_*` (src/compiler.rs), `Operand`, `decode_operand` (src/vm/engine.rs)
--   Bytecode/Scan     the fetch of `exec_function`, `scan_labels` (src/vm/engine.rs)
--   Bytecode/Code     code as instructions; RoundTrip and Mnemonics hold proofs
--   Cubebin/*         `to_cubebin`, `from_cubebin`, `save`, `capability_conflict` (src/compiler.rs)
--   Vsa/Hypervec      `Hypervec` (src/vm/hypervec.rs); Algebra, Bundle, Packed and Hamming hold proofs
--   Vsa/Codebook      `Codebook` (src/vm/codebook.rs), `random_with_rng` (src/vm/hypervec.rs)
--   Vsa/Index         `HammingIndex` (src/vm/index.rs); Nearest holds proofs
--   Memory            `HippocampalMemory` (src/vm/memory.rs); Invariant and Store hold proofs
--   Knowledge         `KnowledgeStore`, `normalize` (src/vm/knowledge.rs); Laws holds proofs
--   Vm/Value, State   `Value`, `num_binop`, `VM`, `ExecResult`, snapshots (src/vm/engine.rs)
--   Vm/Registry       `ModuleRegistry` (src/vm/registry.rs); Access holds proofs
--   Vm/Resolve        `resolve_*` (src/vm/engine.rs)
--   Vm/Frames         `vsa_bind_into`, `vsa_unbind_cleanup*` (src/vm/engine.rs); Recover holds proofs
--   Vm/Data           the opcodes that touch no local, and their dispatch
--   Vm/Turn, Calls    the locals of `exec_function`, and CALL and ASK
--   Vm/Step           a turn of the loop of `exec_function`; its child modules hold proofs
--   Vm/Exec           `exec_function`, `exec_intra_call`, `call`, `call_entry`, `resume`, `load`; Turns,
--                     Termination, EntryPoints, Resume, Fresh and Outcomes hold proofs
--   Examples/*        stand-ins for the parameters, tests and concrete runs of the theorems
--
-- How it is modelled. A string is its UTF-8 bytes. A `HashMap` is an association list in the order of
-- insertion; where the program iterates one, its order is otherwise unspecified. An `i64` wraps
-- around, as in release builds. Errors are data that carry what the message says. A panic of an
-- assertion, an index or a division is an outcome of its own. A similarity is kept as its numerator
-- over the dimension. The sort of the index is an insertion sort. The top of the stack is the head of
-- a list. Parameters stand for code that is not in the repository: the random generator, BLAKE3, the
-- Unicode tables, the float operations, the file system under the loader, the derived debug output
-- and the clock. So does the parser that the loader calls, which is not modelled.
--
-- Fuel. The label scan takes the number of bytes. The interpreter's loop takes the turns of a
-- function with those of the callees inside them; Vm/Exec/EntryPoints computes a fuel for a machine
-- from its longest code, its jump budget and the call levels left, and the entries end within it.
-- Bundles take the number of their vectors, the loader the depth of nested imports, for which the
-- number of files is enough.
--
-- Not modelled: the lexer and the parser, the wording of error messages, the command line and its
-- protocol, file input and output, tracing and events, the LSH index, weighted bundles and bit flips,
-- `load_jsonl`, and the exhaustion of memory,
-- the capacity panic of the vector that MAKE_ARRAY reserves included.
pub mod Base
pub mod Bytecode
pub mod Program
pub mod Syntax
pub mod Interfaces
pub mod Compiler
pub mod Cubebin
pub mod Vsa
pub mod Memory
pub mod Knowledge
pub mod Validator
pub mod Loader
pub mod Vm
pub mod Examples
