-- ===== src/Vm/Exec/Fresh.antt =====
-- The machine that `VM::new` makes, and a program that is loaded into one (src/vm/engine.rs: `new`,
-- `load`).
use cubelang.Base.{[]}
use cubelang.Base.Text.{Text}
use cubelang.Base.Equal.{list_equal}
use cubelang.Vsa.Codebook.{Codebook, IsCoherent}
use cubelang.Memory
use cubelang.Memory.{HippocampalMemory}
use cubelang.Vsa.Index
use cubelang.Vm.Value.{Value}
use cubelang.Vm.Registry
use cubelang.Vm.Registry.{all_function_names}
use cubelang.Memory.Store
use cubelang.Knowledge
use cubelang.Knowledge.Laws
use cubelang.Vm.State.{Host, Vm, register_names, new, blank, mem_dim, mem_seed}
use cubelang.Vm.Exec.EntryPoints.{IsIdle}

module _ (host : Host) where
  open host.floats use {F}

  -- A machine that a host may use: between two runs, with a valid memory and knowledge store and a
  -- codebook that caches only the symbols' own vectors.
  abbrev pub IsUsable : Vm F → Type 0
  IsUsable vm =
      IsIdle host vm
      × Memory.Store.IsValid vm.memory
      × IsCoherent host.rng vm.vsa
      × Knowledge.Laws.IsValid host.unicode vm.knowledge

  abbrev codebook : Codebook
  codebook = record { seed = mem_seed; dim = mem_dim; cache = [] }

  abbrev memory : HippocampalMemory (Value F)
  memory = record {
    codebook = codebook;
    index = Index.new;
    traces = [];
    by_key = [];
    dim = mem_dim;
  }

  abbrev fresh : Vm F
  fresh = register_names host (blank host memory codebook) (all_function_names Registry.new)
