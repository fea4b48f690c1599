-- ===== src/Examples/Machine.antt =====
-- Runs of the machine's theorems: a program whose `step` calls its sibling `twice`.
use cubelang.Base.{
  inl, length, ℕ, ◌≤◌, List, [], ◌∷◌, Bool, true, false, none, some, ◌≡◌, ◌↔◌, refl, ◌⊎◌, arith,
}
use cubelang.Base.Int.{pos}
use cubelang.Base.Text.{Text, lit}
use cubelang.Base.Dict.{lookup}
use cubelang.Base.Equal.{list_equal}
use cubelang.Bytecode.Op
use cubelang.Bytecode.Operand.{named, imm, global}
use cubelang.Bytecode.Code.{Instr, instr, code}
use cubelang.Program.{CompiledFunction, CompiledProgram, Access, external, internal}
use cubelang.Vm.Value.{
  Value, int, str, null, array, map, value, no_values, field, no_fields, entries,
}
use cubelang.Vm.Registry
use cubelang.Vm.Registry.{ModuleFn, vsa_recover, resolve, resolve_named, get}
use cubelang.Vm.Registry.Access.{FirstUse, function_of, resolve_named-FirstUse}
use cubelang.Vm.State.{new, Suspension, Vm, error, blank}
use cubelang.Vm.Turn.{Locals}
use cubelang.Vm.Step.{turn}
use cubelang.Vm.Step.Core.{core}
use cubelang.Vm.Step.Moves.{IsTurn}
use cubelang.Vm.Step.Progress.{Jumped, turn-IsTurn}
use cubelang.Vm.Exec.{finished, started, start, once_key, enter, offered, call_function}
use cubelang.Vm.Exec.Turns.{Finishes}
use cubelang.Vm.Exec.Resume.{fuel_after, resume-Finishes}
use cubelang.Vm.State.{Suspension, not_a_candidate}
use cubelang.Vm.Exec.{resume, offered}
use cubelang.Vm.Value.{null}
use cubelang.Vm.Exec.EntryPoints.{IsIdle, fuel_for, call_function-Finishes}
use cubelang.Vm.Frames.Recover.{is_among}
use cubelang.Vm.Exec.Outcomes.{
  IsSelectable, IsIn, entered_again, enter_once, offered-candidate, offered-IsIn,
}
use cubelang.Examples.Parameters.{small_memory, small_codebook, two_floats, small_host}

abbrev function : Text → List (Instr Bool) → Access → Bool → CompiledFunction
function name body access once = record {
  name = name;
  params = [];
  bytecode = code two_floats body;
  labels = [];
  debug_lines = [];
  is_override = false;
  access = access;
  once = once;
}

abbrev step : CompiledFunction
step =
    function (lit "step")
      (instr Op.call (global (5, b't') ∷ []) ∷ instr Op.pop (named (1, 1) ∷ []) ∷ []) external true

abbrev twice : CompiledFunction
twice = function (lit "twice") (instr Op.return (imm (pos 2) ∷ []) ∷ []) internal false

abbrev counter : CompiledProgram
counter = record {
  name = lit "Counter";
  implements = [];
  functions = step ∷ twice ∷ [];
  storage_fields = [];
  symbol_names = [];
  used_modules = [];
}

abbrev machine : Vm Bool
machine = record (blank small_host small_memory small_codebook) {
  programs = (lit "Counter", counter) ∷ [];
  name_table = ((5, b't'), lit "twice") ∷ [];
  resume_state = none;
  call_depth = 0;
  registers = [];
  vsa_frames = [];
  once_called = [];
  current_program = some (lit "Counter");
}

abbrev recover_fn : ModuleFn
recover_fn = record { overridable = true; call = vsa_recover }

abbrev none_yet : Locals
none_yet = record { pc = 0; flag = false; jump_budget = 3 }

machine-IsIdle : IsIdle small_host machine
machine-IsIdle = (refl, omega arith)

le_same : (n : ℕ) → n ≤ n
le_same n = omega arith

call_function-Finishes_example : Finishes small_host (core machine) (
    call_function small_host
      (fuel_for small_host machine)
      machine
      (lit "Counter")
      (lit "step")
      (int (pos 1) ∷ []))
call_function-Finishes_example =
    call_function-Finishes small_host (fuel_for small_host machine) machine (lit "Counter")
      (lit "step") (int (pos 1) ∷ []) machine-IsIdle (le_same (fuel_for small_host machine))

-- `step` suspended at its start, with two numbers offered.
abbrev waiting : Suspension Bool
waiting = record {
  question = null;
  candidates = int (pos 1) ∷ int (pos 2) ∷ [];
  pc = 0;
  flag = false;
  jump_budget = 3;
  function = lit "step";
  program = lit "Counter";
}

resume-Finishes_example :
    Finishes small_host
      (core machine)
      (resume small_host (fuel_after small_host machine waiting) machine waiting (int (pos 1)))
    × ((offered small_host waiting (int (pos 1)) ≡ false)
        → resume small_host (fuel_after small_host machine waiting) machine waiting (int (pos 1))
          ≡ finished (error (not_a_candidate (int (pos 1)) 2)) machine)
resume-Finishes_example =
    resume-Finishes small_host (fuel_after small_host machine waiting) machine waiting (int (pos 1))
      machine-IsIdle (le_same (fuel_after small_host machine waiting))

turn-IsTurn_example :
    IsTurn small_host
      (Jumped small_host step [] none_yet)
      1
      3
      machine
      (turn small_host step [] none_yet machine)
turn-IsTurn_example = turn-IsTurn small_host step [] none_yet machine

abbrev stepped : Vm Bool
stepped = record machine { once_called = lit "Counter.step" ∷ [] }

abbrev fresh_locals : Locals
fresh_locals = record { pc = 0; flag = false; jump_budget = machine.jump_budget }

entered_once : enter small_host step machine ≡ started fresh_locals stepped
unfolding enter start
entered_once = refl

-- Another `@once` function has been entered since.
abbrev later : Vm Bool
later = record stepped { once_called = lit "Counter.step" ∷ lit "Counter.init" ∷ [] }

later-Remembers :
    (k : Text) → is_among k stepped.once_called ≡ true → is_among k later.once_called ≡ true
later-Remembers k h = ground arith

enter_once_example :
    enter small_host step later
    ≡ entered_again small_host (once_key small_host step machine) later later.resume_state
enter_once_example =
    enter_once small_host step machine stepped later fresh_locals refl refl entered_once
      later-Remembers refl

abbrev chunk : Value Bool
chunk = array (value (map (field (lit "text") (str (lit "press")) no_fields)) no_values)

chunk-IsSelectable : IsSelectable small_host chunk
unfolding entries lookup
chunk-IsSelectable = (((refl, tt), (tt, tt)), tt)

abbrev choice : Suspension Bool
choice = record {
  question = str (lit "which?");
  candidates = chunk ∷ int (pos 7) ∷ [];
  pc = 0;
  flag = false;
  jump_budget = 1;
  function = lit "step";
  program = lit "Counter";
}

offered-candidate_example : offered small_host choice chunk ≡ true
offered-candidate_example = offered-candidate small_host choice chunk (inl refl) chunk-IsSelectable

offered-IsIn_example :
    (offered small_host choice (int (pos 7)) ≡ true)
    ↔ ((length choice.candidates ≡ 0) ⊎ IsIn small_host (int (pos 7)) choice.candidates)
offered-IsIn_example = offered-IsIn small_host choice (int (pos 7)) tt

resolve_named-FirstUse_example :
    ((resolve_named Registry.new (lit "vsa" ∷ []) (lit "recover") ≡ some (lit "vsa", recover_fn))
      ↔ FirstUse Registry.new (lit "vsa" ∷ []) (lit "recover") (lit "vsa") recover_fn)
    × (resolve Registry.new (lit "vsa" ∷ []) (lit "recover")
        ≡ function_of (resolve_named Registry.new (lit "vsa" ∷ []) (lit "recover")))
resolve_named-FirstUse_example =
    resolve_named-FirstUse Registry.new (lit "vsa" ∷ []) (lit "recover") (lit "vsa") recover_fn
