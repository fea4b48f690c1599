-- ===== src/Vm/Frames/Recover.antt =====
-- What a recovery answers, and what a binding records.
use cubelang.Base.{
  ℕ, suc, not, refl, if◌then◌else◌, ◌==◌, List, [], ◌∷◌, ◌++◌, Bool, Bool-cases, true, false, ◌&&◌,
  ◌||◌, Option, Option-cases, none, some, length, any, ◌≡◌, ◌⊎◌, inl, inr, arith,
}
use cubelang.Base.Int.{ℤ, leb_ℤ}
use cubelang.Base.Text.{Text}
use cubelang.Base.Dict.{lookup, insert, lookup-insert}
use cubelang.Base.Equal.{list_equal, list_eq, list_eq_iff}
use cubelang.Vsa.Hypervec.{Hypervec, unbind, cosine_sim}
use cubelang.Vm.Value.{Value, hvec}
use cubelang.Vm.State.{Host, Vm, absent_role, recovered}
use cubelang.Vm.Frames.{
  vsa_symbol_vec, vsa_role_vec, add_once, frame_of, note_binding, vsa_bind_into, record_recover,
  contest, rank, recover_with, recover_nothing, cleanup_bound, vsa_unbind_cleanup,
  vsa_unbind_cleanup_known, pool_of,
}

abbrev pub is_among : Text → List Text → Bool
is_among x xs = any (λ y. list_eq y x) xs

module _ (host : Host) where
  open host.floats use {F}

  contest-among :
      (b : Option (Text × ℤ) × Option ℤ) (c : Text) (sim : ℤ) (w : Text) (s : ℤ)
      → (contest host b c sim).0 ≡ some (w, s)
      → (b.0 ≡ some (w, s)) ⊎ (list_eq c w ≡ true)
  unfolding contest
  contest-among (none, second) c sim w s e = inr (ground (arith, list_eq_iff c w))
  contest-among (some (u, bs), second) c sim w s e = elim (Bool-cases (leb_ℤ sim bs)) [
    | inl keeps ↦ inl (ground arith)
    | inr loses ↦ inr (ground (arith, list_eq_iff c w))
  ]

  -- A winner is the best so far or one of the candidates.
  rank-among :
      (h : Hypervec) (vm : Vm F) (best : Option (Text × ℤ) × Option ℤ) (cs : List Text) (w : Text)
      (s : ℤ) (second : Option ℤ) (vm1 : Vm F)
      → rank host h vm best cs ≡ some ((some (w, s), second), vm1)
      → (best.0 ≡ some (w, s)) ⊎ (is_among w cs ≡ true)
  unfolding rank
  rank-among h vm best [] w s second vm1 e = inl (ground arith)
  rank-among h vm best (c ∷ cs) w s second vm1 e =
      let (cv, vm2) = vsa_symbol_vec host vm c in
      elim (Option-cases (cosine_sim h cv)) [
        | inl bad ↦ absurd (ground arith)
        | inr (sim, good) ↦
            elim (rank-among h vm2 (contest host best c sim) cs w s second vm1 (ground arith)) [
              | inl kept ↦ elim (contest-among best c sim w s kept) [
                | inl old ↦ inl old
                | inr new ↦ inr (ground arith)
              ]
              | inr later ↦ inr (ground arith)
            ]
      ]

  recover_with-among :
      (vm : Vm F) (reg role : Text) (cs : List Text) (h : Hypervec) (w : Text) (s : ℤ) (vm1 : Vm F)
      → recover_with host vm reg role cs h ≡ some (some (w, s), vm1)
      → (is_among w cs ≡ true)
        × (vm1.last_recover_similarity ≡ some s)
        × (vm1.last_recover_reason ≡ some recovered)
  unfolding recover_with record_recover
  recover_with-among vm reg role cs h w s vm1 e =
      let (rv, vm2) = vsa_role_vec host vm role in
      elim (Option-cases (unbind h rv)) [
        | inl bad ↦ absurd (ground arith)
        | inr (v, good) ↦ elim (Option-cases (rank host v vm2 (none, none) cs)) [
          | inl worse ↦ absurd (ground arith)
          | inr (((none, second), vm3), ranked) ↦ absurd (ground arith)
          | inr (((some (u, t), second), vm3), ranked) ↦
              elim (rank-among v vm2 (none, none) cs u t second vm3 ranked) [
                | inl never ↦ absurd (ground arith)
                | inr among ↦ (ground arith, ground arith, ground arith)
              ]
        ]
      ]

  cleanup_bound-among :
      (vm : Vm F) (reg role : Text) (cs : List Text) (v : Value F) (w : Text) (s : ℤ) (vm1 : Vm F)
      → cleanup_bound host vm reg role cs v ≡ some (some (w, s), vm1)
      → (is_among w cs ≡ true)
        × (vm1.last_recover_similarity ≡ some s)
        × (vm1.last_recover_reason ≡ some recovered)
  unfolding cleanup_bound recover_nothing
  cleanup_bound-among vm reg role (c ∷ cs) (hvec h) w s vm1 e =
      recover_with-among vm reg role (c ∷ cs) h w s vm1 e
  cleanup_bound-among vm reg role [] (hvec h) w s vm1 e = absurd (ground arith)
  cleanup_bound-among vm reg role [] v w s vm1 e = absurd (ground arith)
  cleanup_bound-among vm reg role (c ∷ cs) v w s vm1 e = absurd (ground arith)

  vsa_unbind_cleanup-among :
      (vm : Vm F) (reg role : Text) (cs : List Text) (w : Text) (s : ℤ) (vm1 : Vm F)
      → vsa_unbind_cleanup host vm reg role cs ≡ some (some (w, s), vm1)
      → (is_among w cs ≡ true)
        × (vm1.last_recover_similarity ≡ some s)
        × (vm1.last_recover_reason ≡ some recovered)
  unfolding vsa_unbind_cleanup recover_nothing
  vsa_unbind_cleanup-among vm reg role cs w s vm1 e =
      elim (Option-cases (lookup reg vm.registers)) [
        | inl unset ↦ absurd (ground arith)
        | inr (v, set) ↦ cleanup_bound-among vm reg role cs v w s vm1 (ground arith)
      ]

  -- A recovery from a frame that has recorded bindings answers one of the frame's own fillers, for
  -- a role that the frame has, and notes the similarity.
  pub vsa_unbind_cleanup_known-among :
      (vm : Vm F) (reg role : Text) (w : Text) (s : ℤ) (vm1 : Vm F)
      → (length (frame_of host vm reg).roles == 0) ≡ false
      → (length (frame_of host vm reg).fillers == 0) ≡ false
      → vsa_unbind_cleanup_known host vm reg role ≡ some (some (w, s), vm1)
      → (is_among role (frame_of host vm reg).roles ≡ true)
        × (is_among w (frame_of host vm reg).fillers ≡ true)
        × (vm1.last_recover_similarity ≡ some s)
        × (vm1.last_recover_reason ≡ some recovered)
  unfolding vsa_unbind_cleanup_known pool_of recover_nothing
  vsa_unbind_cleanup_known-among vm reg role w s vm1 has_roles has_fillers e =
      let frame = frame_of host vm reg in
      elim (Bool-cases (is_among role frame.roles)) [
        | inl there ↦
            let (among, sim, reason) =
              vsa_unbind_cleanup-among vm reg role frame.fillers w s vm1 (ground arith) in
            (there, among, sim, reason)
        | inr absent ↦ absurd (ground arith)
      ]

  -- A role that a frame with recorded roles does not have is answered with nothing, whatever the
  -- register holds: no similarity is noted, the reason is the absent role, and the registers, the
  -- frames and the codebook stay as they were.
  pub vsa_unbind_cleanup_known_absent :
      (vm : Vm F) (reg role : Text) (hit : Option (Text × ℤ)) (vm1 : Vm F)
      → (length (frame_of host vm reg).roles == 0) ≡ false
      → is_among role (frame_of host vm reg).roles ≡ false
      → vsa_unbind_cleanup_known host vm reg role ≡ some (hit, vm1)
      → (hit ≡ none)
        × (vm1.last_recover_similarity ≡ none)
        × (vm1.last_recover_reason ≡ some absent_role)
        × (vm1.registers ≡ vm.registers)
        × (vm1.vsa_frames ≡ vm.vsa_frames)
        × (vm1.vsa ≡ vm.vsa)
  unfolding vsa_unbind_cleanup_known recover_nothing record_recover
  vsa_unbind_cleanup_known_absent vm reg role hit vm1 has_roles absent e =
      (ground arith, ground arith, ground arith, ground arith, ground arith, ground arith)

  is_among_last :
      (x y : Text) (xs : List Text) → is_among y (xs ++ x ∷ []) ≡ (list_eq x y || is_among y xs)
  is_among_last x y [] = ground arith
  is_among_last x y (z ∷ zs) = ground (arith, is_among_last x y zs)

  is_among-add_once :
      (x : Text) (xs : List Text) (y : Text)
      → is_among y (add_once host x xs) ≡ (list_eq x y || is_among y xs)
  unfolding add_once
  is_among-add_once x xs y = elim (Bool-cases (is_among x xs)) [
    | inl there ↦ rw there (ground (arith, list_eq_iff x y))
    | inr new ↦ rw new (is_among_last x y xs)
  ]

  vsa_bind_into-frames :
      (vm : Vm F) (reg role filler : Text) (vm1 : Vm F)
      → vsa_bind_into host vm reg role filler ≡ some vm1
      → vm1.vsa_frames
        ≡ insert reg (note_binding host (frame_of host vm reg) role filler) vm.vsa_frames
  unfolding vsa_bind_into vsa_role_vec vsa_symbol_vec frame_of
  vsa_bind_into-frames vm reg role filler vm1 e = ground arith

  -- How often a name stands in a list.
  abbrev pub times : Text → List Text → ℕ
  times x [] = 0
  times x (y ∷ ys) = if list_eq y x then suc (times x ys) else times x ys

  times_last :
      (x y : Text) (xs : List Text)
      → times y (xs ++ x ∷ []) ≡ (if list_eq x y then suc (times y xs) else times y xs)
  times_last x y [] = refl
  times_last x y (z ∷ zs) = ground (arith, times_last x y zs)

  -- A name that is new to the list stands in it once, and every other as often as it did.
  times-add_once :
      (x : Text) (xs : List Text) (y : Text)
      → times y (add_once host x xs)
        ≡ (if list_eq x y && not (is_among x xs) then suc (times y xs) else times y xs)
  unfolding add_once
  times-add_once x xs y = elim (Bool-cases (is_among x xs)) [
    | inl there ↦ rw there (ground arith)
    | inr new ↦ rw new (ground (arith, times_last x y xs))
  ]

  -- How the names of a frame have grown by one, looked at from any name: it is among them or new,
  -- and stands once more only where it is new.
  abbrev pub Grown : Bool → Text → List Text → List Text → Text → Type 0
  Grown here name old names x =
      (is_among x names ≡ ((here && list_eq name x) || is_among x old))
      × (times x names ≡ (
          if here && (list_eq name x && not (is_among name old))
          then suc (times x old)
          else times x old))

  -- After a binding, the register's frame has the role and the filler besides those it had, one more
  -- of each where it was not there and no more where it was, and the frame of every other register
  -- is as it was.
  pub vsa_bind_into-frame_of :
      (vm : Vm F) (reg role filler : Text) (vm1 : Vm F) (j x : Text)
      → vsa_bind_into host vm reg role filler ≡ some vm1
      → Grown (list_eq reg j) role (frame_of host vm j).roles (frame_of host vm1 j).roles x
        × Grown (list_eq reg j) filler (frame_of host vm j).fillers (frame_of host vm1 j).fillers x
  unfolding frame_of note_binding
  vsa_bind_into-frame_of vm reg role filler vm1 j x e =
      let frames = vsa_bind_into-frames vm reg role filler vm1 e in
      let here =
        lookup-insert reg j (note_binding host (frame_of host vm reg) role filler) vm.vsa_frames in
      let f = frame_of host vm reg in
      (
        (
          ground (arith, frames, here, is_among-add_once role f.roles x, list_eq_iff reg j),
          ground (arith, frames, here, times-add_once role f.roles x, list_eq_iff reg j),
        ),
        (
          ground (arith, frames, here, is_among-add_once filler f.fillers x, list_eq_iff reg j),
          ground (arith, frames, here, times-add_once filler f.fillers x, list_eq_iff reg j),
        ),
      )
