-- ===== src/Vm/State.antt =====
-- The machine's state and its outcomes (src/vm/engine.rs: `VM`, `ExecResult`, `Suspension`,
-- `VmSnapshot`). Tracing is off; `events` and the wall budget's number, which no step reads, are left
-- out. A similarity is its numerator over the dimension.
use cubelang.Base.{some, ℕ, List, [], ◌∷◌, Bool, false, Option, none}
use cubelang.Base.Int.{ℤ}
use cubelang.Base.Text.{Text}
use cubelang.Base.Dict.{Dict, insert}
use cubelang.Base.Equal.{list_equal, pair_equal}
use cubelang.Program.{CompiledProgram}
use cubelang.Bytecode.Operand.{Hash}
use cubelang.Bytecode.Float.{FloatOps}
use cubelang.Vsa.Codebook.{Rng, Codebook, with_dim}
use cubelang.Memory.{HippocampalMemory}
use cubelang.Memory
use cubelang.Knowledge.{Unicode, KnowledgeStore}
use cubelang.Knowledge
use cubelang.Vm.Value.{Value}
use cubelang.Vm.Registry
use cubelang.Vm.Registry.{all_function_names}

-- What the machine takes from elsewhere: floats, the random generator, Unicode tables, the first
-- two bytes of a BLAKE3 hash, the derived `{:?}` of a container, and whether the deadline has passed
-- when so many opcodes have run.
pub record Host : Type 1 where
  pub floats : FloatOps
  pub rng : Rng
  pub unicode : Unicode
  pub hash : Text → Hash
  pub debug : Value floats.F → Text
  pub expired : ℕ → Bool

pub record VsaFrame : Type 0 where
  pub roles : List Text
  pub fillers : List Text

pub data RecoverReason : Type 0 where
  recovered absent_role no_frame empty_pool : RecoverReason

pub record RecoverRecord : Type 0 where
  pub reg : Text
  pub role : Text
  pub winner : Option Text
  pub similarity : Option ℤ
  pub runner_up : Option ℤ
  pub margin : Option ℤ
  pub pool : ℕ
  pub reason : RecoverReason

pub record Suspension (F : Type 0) : Type 0 where
  pub question : Value F
  pub candidates : List (Value F)
  pub pc : ℕ
  pub flag : Bool
  pub jump_budget : ℕ
  pub function : Text
  pub program : Text

-- The messages of `ExecResult::Error`, by what they say.
pub data VmError (F : Type 0) : Type 0 where
  op_budget_exhausted query_budget_exhausted : ℕ → VmError F
  wall_budget_exhausted jump_budget_exhausted division_by_zero : VmError F
  negative_index not_first_index : ℤ → Text → VmError F
  past_the_end : ℕ → Text → ℕ → VmError F
  not_indexable : Text → Value F → VmError F
  unresolved_name no_program_context : VmError F
  call_depth_exceeded not_loaded program_not_found already_run ask_inside_call : Text → VmError F
  not_found function_not_found is_internal is_system resume_function : Text → Text → VmError F
  unknown_opcode : ℕ → ℕ → VmError F
  not_a_candidate : Value F → ℕ → VmError F
  resume_program : Text → VmError F

pub data ExecResult (F : Type 0) : Type 0 where
  ok return : Value F → ExecResult F
  suspend : Suspension F → ExecResult F
  error : VmError F → ExecResult F

-- The top of the stack is its head.
pub record Vm (F : Type 0) : Type 0 where
  pub knowledge : KnowledgeStore
  pub resume_state : Option (Suspension F)
  pub registers : Dict Text (Value F)
  pub stack : List (Value F)
  pub storage : Dict Text (Value F)
  pub memory : HippocampalMemory (Value F)
  pub vsa : Codebook
  pub vsa_frames : Dict Text VsaFrame
  pub accumulator : Value F
  pub programs : Dict Text CompiledProgram
  pub name_table : Dict Hash Text
  pub current_program : Option Text
  pub call_depth : ℕ
  pub last_recover_similarity : Option ℤ
  pub ops_executed : ℕ
  pub jumps_taken : ℕ
  pub queried : List (Text × ℕ)
  pub jump_budget : ℕ
  pub op_budget : ℕ
  pub query_budget : ℕ
  pub deadline : Bool
  pub recovers : List RecoverRecord
  pub last_recover_runner_up : Option ℤ
  pub last_recover_reason : Option RecoverReason
  pub once_called : List Text

pub record VmSnapshot (F : Type 0) : Type 0 where
  pub registers : Dict Text (Value F)
  pub stack : List (Value F)
  pub storage : Dict Text (Value F)
  pub memory : HippocampalMemory (Value F)
  pub vsa_frames : Dict Text VsaFrame
  pub accumulator : Value F
  pub knowledge : KnowledgeStore

abbrev pub mem_dim : ℕ
mem_dim = 4096

abbrev pub mem_seed : ℕ
mem_seed = 0xC0DEB00C

abbrev pub max_call_depth : ℕ
max_call_depth = 64

unfoldable pub snapshot : {F : Type 0} → Vm F → VmSnapshot F
snapshot vm = record {
  registers = vm.registers;
  stack = vm.stack;
  storage = vm.storage;
  memory = vm.memory;
  vsa_frames = vm.vsa_frames;
  accumulator = vm.accumulator;
  knowledge = vm.knowledge;
}

unfoldable pub restore : {F : Type 0} → Vm F → VmSnapshot F → Vm F
restore vm snap = record vm {
  registers = snap.registers;
  stack = snap.stack;
  storage = snap.storage;
  memory = snap.memory;
  vsa_frames = snap.vsa_frames;
  accumulator = snap.accumulator;
  knowledge = snap.knowledge;
}

unfoldable pub reset : {F : Type 0} → Vm F → Vm F
reset vm = record vm { registers = []; stack = []; accumulator = Value.null }

module _ (host : Host) where
  open host.floats use {F}

  unfoldable pub register_name : Vm F → Text → Vm F
  register_name vm name = record vm { name_table = insert (host.hash name) name vm.name_table }

  unfoldable pub register_names : Vm F → List Text → Vm F
  register_names vm [] = vm
  register_names vm (n ∷ ns) = register_names (register_name vm n) ns

  -- The machine before the native names are registered, over its memory and its codebook.
  abbrev pub blank : HippocampalMemory (Value F) → Codebook → Vm F
  blank memory vsa = record {
    knowledge = Knowledge.new;
    resume_state = none;
    registers = [];
    stack = [];
    storage = [];
    memory = memory;
    vsa = vsa;
    vsa_frames = [];
    accumulator = Value.null;
    programs = [];
    name_table = [];
    current_program = none;
    call_depth = 0;
    last_recover_similarity = none;
    ops_executed = 0;
    jumps_taken = 0;
    queried = [];
    jump_budget = 1000000;
    op_budget = 0;
    query_budget = 0;
    deadline = false;
    recovers = [];
    last_recover_runner_up = none;
    last_recover_reason = none;
    once_called = [];
  }

  -- `none` would be a panic on the dimension.
  unfoldable pub new : Option (Vm F)
  new = elim (Memory.new mem_dim mem_seed) [
    | none ↦ none
    | some memory ↦ elim (with_dim mem_seed mem_dim) [
      | none ↦ none
      | some vsa ↦ some (register_names (blank memory vsa) (all_function_names Registry.new))
    ]
  ]
