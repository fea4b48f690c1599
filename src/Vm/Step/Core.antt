-- ===== src/Vm/Step/Core.antt =====
-- What no opcode changes: the programs, the jump budget, the call depth and the pending resumption.
pub mod Handlers
use cubelang.Base.{
  ℕ, ◌==◌, List, [], ◌∷◌, Bool, true, false, Option, Option-cases, none, some, ◌≡◌, refl, inl, inr,
  if◌then◌else◌, get_elem?, length, any, arith,
}
use cubelang.Base.Int.{ℤ}
use cubelang.Base.Text.{Text}
use cubelang.Base.Dict.{Dict, lookup}
use cubelang.Base.Equal.{list_equal, pair_equal}
use cubelang.Program.{CompiledProgram}
use cubelang.Bytecode.Operand.{Operand}
use cubelang.Vsa.Hypervec.{Hypervec, cosine_sim, unbind}
use cubelang.Vm.Value.{Value, hvec, BinOp, plus, minus, times, over}
use cubelang.Vm.State.{
  Host, Vm, Suspension, RecoverReason, recovered, absent_role, no_frame, empty_pool,
}
use cubelang.Vm.Resolve.{resolve_symbol_name, name_at}
use cubelang.Vm.Frames.{
  vsa_symbol_vec, vsa_role_vec, vsa_bind_into, record_recover, rank, contest, frame_of, pool_of,
  winner_of, similarity_of, recover_with, recover_nothing, cleanup_bound, vsa_unbind_cleanup,
  vsa_unbind_cleanup_known,
}
use cubelang.Bytecode.Op
use cubelang.Vm.Data
use cubelang.Vm.Data.{Effect, goes, fails, panics}

pub record Core (F : Type 0) : Type 0 where
  pub programs : Dict Text CompiledProgram
  pub jump_budget : ℕ
  pub call_depth : ℕ
  pub resume_state : Option (Suspension F)

abbrev pub core : {F : Type 0} → Vm F → Core F
core vm = record {
  programs = vm.programs;
  jump_budget = vm.jump_budget;
  call_depth = vm.call_depth;
  resume_state = vm.resume_state;
}

module _ (host : Host) where
  open host.floats use {F}

  abbrev pub KeepsEffect : Vm F → Effect F → Type 0
  KeepsEffect vm (goes vm1) = core vm1 ≡ core vm
  KeepsEffect vm (fails e) = Unit
  KeepsEffect vm panics = Unit

  -- A result, where it is one, keeps the core.
  abbrev pub KeepsResult : {A : Type 0} → Vm F → Option (A × Vm F) → Type 0
  KeepsResult vm (some (a, vm1)) = core vm1 ≡ core vm
  KeepsResult vm none = Unit

  core-record_recover :
      (vm : Vm F) (reg role : Text) (w : Option Text) (s r : Option ℤ) (pool : ℕ)
      (why : RecoverReason) (vm1 : Vm F)
      → record_recover host vm reg role w s r pool why ≡ some vm1
      → core vm1 ≡ core vm
  unfolding record_recover
  core-record_recover vm reg role w s r pool why vm1 e = ground arith

  pub core-vsa_symbol_vec : (vm : Vm F) (s : Text) → core (vsa_symbol_vec host vm s).1 ≡ core vm
  unfolding vsa_symbol_vec
  core-vsa_symbol_vec vm s = refl

  pub core-vsa_role_vec : (vm : Vm F) (s : Text) → core (vsa_role_vec host vm s).1 ≡ core vm
  unfolding vsa_role_vec vsa_symbol_vec
  core-vsa_role_vec vm s = refl

  core-rank :
      (h : Hypervec) (vm : Vm F) (best : Option (Text × ℤ) × Option ℤ) (cs : List Text)
      → KeepsResult vm (rank host h vm best cs)
  unfolding rank vsa_symbol_vec
  core-rank h vm best [] = refl
  core-rank h vm best (c ∷ cs) =
      let (cv, vm1) = vsa_symbol_vec host vm c in
      elim (cosine_sim h cv)
        as (λ o.
          KeepsResult vm
            (elim o [ none ↦ none | some sim ↦ rank host h vm1 (contest host best c sim) cs ])) [
              | none ↦ tt
              | some sim ↦ core-rank h vm1 (contest host best c sim) cs
            ]

  core-recover_nothing :
      (vm : Vm F) (reg role : Text) (pool : ℕ) (why : RecoverReason)
      → KeepsResult vm (recover_nothing host vm reg role pool why)
  unfolding recover_nothing record_recover
  core-recover_nothing vm reg role pool why = ground arith

  core-recover_with :
      (vm : Vm F) (reg role : Text) (cs : List Text) (h : Hypervec)
      → KeepsResult vm (recover_with host vm reg role cs h)
  unfolding recover_with
  core-recover_with vm reg role cs h =
      let (rv, vm1) = vsa_role_vec host vm role in
      elim (Option-cases (unbind h rv)) [
        | inl bad ↦ ground arith
        | inr (v, good) ↦ elim (Option-cases (rank host v vm1 (none, none) cs)) [
          | inl worse ↦ ground arith
          | inr (((best, second), vm2), better) ↦
              let r =
                record_recover host vm2 reg role (winner_of host best) (similarity_of host best)
                  second (length cs) recovered in
              let kept = core-rank v vm1 (none, none) cs in
              elim (Option-cases r) [
                | inl worst ↦ ground arith
                | inr (vm3, best_of) ↦ ground (
                  arith,
                  core-record_recover vm2 reg role _ _ _ _ _ vm3 best_of,
                  kept,
                  core-vsa_role_vec vm role,
                )
              ]
        ]
      ]

  core-cleanup_bound :
      (vm : Vm F) (reg role : Text) (cs : List Text) (v : Value F)
      → KeepsResult vm (cleanup_bound host vm reg role cs v)
  unfolding cleanup_bound
  core-cleanup_bound vm reg role [] (hvec h) = core-recover_nothing vm reg role 0 empty_pool
  core-cleanup_bound vm reg role (c ∷ cs) (hvec h) = core-recover_with vm reg role (c ∷ cs) h
  core-cleanup_bound vm reg role [] v = core-recover_nothing vm reg role 0 no_frame
  core-cleanup_bound vm reg role (c ∷ cs) v =
      core-recover_nothing vm reg role (length (c ∷ cs)) no_frame

  pub core-vsa_unbind_cleanup :
      (vm : Vm F) (reg role : Text) (cs : List Text)
      → KeepsResult vm (vsa_unbind_cleanup host vm reg role cs)
  unfolding vsa_unbind_cleanup
  core-vsa_unbind_cleanup vm reg role cs =
      elim (lookup reg vm.registers)
        as (λ o. KeepsResult vm (elim o [
          | some v ↦ cleanup_bound host vm reg role cs v
          | none ↦ recover_nothing host vm reg role (length cs) no_frame
        ])) [
          | none ↦ core-recover_nothing vm reg role (length cs) no_frame
          | some v ↦ core-cleanup_bound vm reg role cs v
        ]

  pub core-vsa_unbind_cleanup_known :
      (vm : Vm F) (reg role : Text) → KeepsResult vm (vsa_unbind_cleanup_known host vm reg role)
  unfolding vsa_unbind_cleanup_known
  core-vsa_unbind_cleanup_known vm reg role =
      let f = frame_of host vm reg in
      ground (
        arith,
        core-recover_nothing vm reg role (length f.fillers) absent_role,
        core-vsa_unbind_cleanup vm reg role (pool_of host vm f),
      )

  pub core-vsa_bind_into :
      (vm : Vm F) (reg role filler : Text) (vm1 : Vm F)
      → vsa_bind_into host vm reg role filler ≡ some vm1
      → core vm1 ≡ core vm
  unfolding vsa_bind_into vsa_role_vec vsa_symbol_vec
  core-vsa_bind_into vm reg role filler vm1 e = ground arith
