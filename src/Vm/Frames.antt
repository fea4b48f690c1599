-- ===== src/Vm/Frames.antt =====
-- Role-filler frames (src/vm/engine.rs: `vsa_bind_into`, `vsa_unbind_cleanup`,
-- `vsa_unbind_cleanup_known`, `record_recover`). `none` is a panic: on a dimension, or of a slice
-- inside a character.
pub mod Recover
use cubelang.Base.{
  ℕ, ◌+◌, ◌-◌, ◌*◌, ◌==◌, List, [], ◌∷◌, ◌++◌, Bool, true, false, not, ◌&&◌, ◌||◌, Option, none,
  some, leb, ltb, if◌then◌else◌, length, any,
}
use cubelang.Base.Int.{ℤ, ◌-ℤ◌, leb_ℤ, ltb_ℤ}
use cubelang.Base.Text.{Text, lit}
use cubelang.Base.Dict.{Dict, lookup, insert}
use cubelang.Base.Equal.{list_equal, pair_equal, list_eq}
use cubelang.Vsa.Hypervec.{Hypervec, bind, unbind, bundle, cosine_sim}
use cubelang.Vsa.Codebook.{get_cloned}
use cubelang.Bytecode.Operand.{Hash}
use cubelang.Vm.Value.{Value, hvec}
use cubelang.Vm.State.{
  Host, Vm, VsaFrame, RecoverReason, RecoverRecord, recovered, absent_role, no_frame, empty_pool,
}

module _ (host : Host) where
  open host use {rng}
  open host.floats use {F}

  unfoldable pub vsa_symbol_vec : Vm F → Text → Hypervec × Vm F
  vsa_symbol_vec vm symbol =
      let (v, cb) = get_cloned rng vm.vsa symbol in (v, record vm { vsa = cb })

  unfoldable pub vsa_role_vec : Vm F → Text → Hypervec × Vm F
  vsa_role_vec vm role = vsa_symbol_vec vm (lit "role:" ++ role)

  -- `push` unless it is there.
  unfoldable pub add_once : Text → List Text → List Text
  add_once x xs = if any (λ y. list_eq y x) xs then xs else xs ++ x ∷ []

  unfoldable pub frame_of : Vm F → Text → VsaFrame
  frame_of vm reg = elim (lookup reg vm.vsa_frames) [
    | some f ↦ f
    | none ↦ record { roles = []; fillers = [] }
  ]

  unfoldable pub combined : Vm F → Text → Hypervec → Option Hypervec
  combined vm reg pair = elim (lookup reg vm.registers) [
    | some v ↦ elim v [ hvec existing ↦ bundle (existing ∷ pair ∷ []) | _ ↦ some pair ]
    | none ↦ some pair
  ]

  unfoldable pub note_binding : VsaFrame → Text → Text → VsaFrame
  note_binding f role filler = record {
    roles = add_once role f.roles;
    fillers = add_once filler f.fillers;
  }

  unfoldable pub vsa_bind_into : Vm F → Text → Text → Text → Option (Vm F)
  vsa_bind_into vm reg role filler =
      let (rv, vm1) = vsa_role_vec vm role in
      let (fv, vm2) = vsa_symbol_vec vm1 filler in
      elim (bind rv fv) [
        | none ↦ none
        | some pair ↦ elim (combined vm2 reg pair) [
          | none ↦ none
          | some h ↦ some (record vm2 {
            registers = insert reg (hvec h) vm2.registers;
            vsa_frames = insert reg (note_binding (frame_of vm2 reg) role filler) vm2.vsa_frames;
          })
        ]
      ]

  unfoldable pub frame_roles : Vm F → Text → List Text
  frame_roles vm reg = (frame_of vm reg).roles

  abbrev hex_value : ℕ → Option ℕ
  hex_value c =
      if leb b'0' c && leb c b'9'
      then some (c - b'0')
      else if leb b'a' c && leb c b'f'
      then some (c - b'a' + 10)
      else if leb b'A' c && leb c b'F'
      then some (c - b'A' + 10)
      else none

  -- `u8::from_str_radix(.., 16)` of two bytes; a leading plus is allowed.
  unfoldable pub hex_byte : ℕ → ℕ → Option ℕ
  hex_byte a b = elim (hex_value b) [
    | none ↦ none
    | some y ↦
        if a == b'+'
        then some y
        else elim (hex_value a) [ none ↦ none | some x ↦ some (16 * x + y) ]
  ]

  unfoldable pub name_of_hex : Vm F → Text → Option ℕ → Option ℕ → Text
  name_of_hex vm reg (some a) (some b) = elim (lookup (a, b) vm.name_table) [
    | some n ↦ n
    | none ↦ reg
  ]
  name_of_hex vm reg _ _ = reg

  abbrev inside_char : ℕ → Bool
  inside_char b = leb 0x80 b && leb b 0xbf

  unfoldable pub readable_hex : Vm F → Text → Text → Option Text
  readable_hex vm reg (a ∷ b ∷ c ∷ d ∷ []) =
      if inside_char c then none else some (name_of_hex vm reg (hex_byte a b) (hex_byte c d))
  readable_hex vm reg _ = some reg

  unfoldable pub readable_reg : Vm F → Text → Option Text
  readable_reg vm (p ∷ u ∷ hex) =
      if ((p == b'r') || (p == b'g')) && (u == b'_')
      then readable_hex vm (p ∷ u ∷ hex) hex
      else some (p ∷ u ∷ hex)
  readable_reg vm reg = some reg

  unfoldable pub margin_of : Option ℤ → Option ℤ → Option ℤ
  margin_of (some s) (some r) = some (s -ℤ r)
  margin_of _ _ = none

  unfoldable pub record_recover :
      Vm F → Text → Text → Option Text → Option ℤ → Option ℤ → ℕ → RecoverReason → Option (Vm F)
  record_recover vm reg role winner similarity runner_up pool reason = elim (readable_reg vm reg) [
    | none ↦ none
    | some shown ↦ some (record vm {
      last_recover_similarity = similarity;
      last_recover_runner_up = runner_up;
      last_recover_reason = some reason;
      recovers =
          vm.recovers
          ++ record {
            reg = shown;
            role = role;
            winner = winner;
            similarity = similarity;
            runner_up = runner_up;
            margin = margin_of similarity runner_up;
            pool = pool;
            reason = reason;
          }
            ∷ [];
    })
  ]

  -- The winner so far with the runner-up, and a next candidate: the earlier one wins a tie.
  unfoldable pub beats : Option ℤ → ℤ → Bool
  beats none sim = true
  beats (some s) sim = ltb_ℤ s sim

  unfoldable pub contest : Option (Text × ℤ) × Option ℤ → Text → ℤ → Option (Text × ℤ) × Option ℤ
  contest (none, second) cand sim = (some (cand, sim), second)
  contest (some (w, bs), second) cand sim =
      if leb_ℤ sim bs
      then (some (w, bs), if beats second sim then some sim else second)
      else (some (cand, sim), some bs)

  unfoldable pub rank :
      Hypervec
      → Vm F
      → Option (Text × ℤ) × Option ℤ
      → List Text
      → Option ((Option (Text × ℤ) × Option ℤ) × Vm F)
  rank bound vm best [] = some (best, vm)
  rank bound vm best (cand ∷ cands) =
      let (cv, vm1) = vsa_symbol_vec vm cand in
      elim (cosine_sim bound cv) [
        | none ↦ none
        | some sim ↦ rank bound vm1 (contest best cand sim) cands
      ]

  abbrev pub winner_of : Option (Text × ℤ) → Option Text
  winner_of (some (w, s)) = some w
  winner_of none = none

  abbrev pub similarity_of : Option (Text × ℤ) → Option ℤ
  similarity_of (some (w, s)) = some s
  similarity_of none = none

  unfoldable pub recover_with :
      Vm F → Text → Text → List Text → Hypervec → Option (Option (Text × ℤ) × Vm F)
  recover_with vm reg role candidates bound =
      let (rv, vm1) = vsa_role_vec vm role in
      elim (unbind bound rv) [
        | none ↦ none
        | some v ↦ elim (rank v vm1 (none, none) candidates) [
          | none ↦ none
          | some ((best, second), vm2) ↦
              elim (record_recover vm2 reg role (winner_of best) (similarity_of best) second
                (length candidates) recovered) [ none ↦ none | some vm3 ↦ some (best, vm3) ]
        ]
      ]

  -- A recovery that finds nothing, for a reason.
  unfoldable pub recover_nothing :
      Vm F → Text → Text → ℕ → RecoverReason → Option (Option (Text × ℤ) × Vm F)
  recover_nothing vm reg role pool reason =
      elim (record_recover vm reg role none none none pool reason) [
        | none ↦ none
        | some vm1 ↦ some (none, vm1)
      ]

  unfoldable pub cleanup_bound :
      Vm F → Text → Text → List Text → Value F → Option (Option (Text × ℤ) × Vm F)
  cleanup_bound vm reg role [] (hvec bound) = recover_nothing vm reg role 0 empty_pool
  cleanup_bound vm reg role (c ∷ cs) (hvec bound) = recover_with vm reg role (c ∷ cs) bound
  cleanup_bound vm reg role cs _ = recover_nothing vm reg role (length cs) no_frame

  unfoldable pub vsa_unbind_cleanup :
      Vm F → Text → Text → List Text → Option (Option (Text × ℤ) × Vm F)
  vsa_unbind_cleanup vm reg role candidates = elim (lookup reg vm.registers) [
    | some v ↦ cleanup_bound vm reg role candidates v
    | none ↦ recover_nothing vm reg role (length candidates) no_frame
  ]

  abbrev known_names : Dict Hash Text → List Text
  known_names [] = []
  known_names ((h, n) ∷ d) = n ∷ known_names d

  unfoldable pub pool_of : Vm F → VsaFrame → List Text
  pool_of vm frame = if length frame.fillers == 0 then known_names vm.name_table else frame.fillers

  -- A role that the frame does not have is answered before any similarity is computed.
  unfoldable pub vsa_unbind_cleanup_known : Vm F → Text → Text → Option (Option (Text × ℤ) × Vm F)
  vsa_unbind_cleanup_known vm reg role =
      let frame = frame_of vm reg in
      if not (length frame.roles == 0) && not (any (λ r. list_eq r role) frame.roles)
      then recover_nothing vm reg role (length frame.fillers) absent_role
      else vsa_unbind_cleanup vm reg role (pool_of vm frame)
