-- ===== src/Examples/Frames.antt =====
-- Runs of the theorems on frames, at four dimensions: "cat" is bound to SUBJECT in one register.
use cubelang.Base.{◌==◌, [], ◌∷◌, Bool, true, false, Option, none, some, length, ◌≡◌, refl}
use cubelang.Base.Int.{ℤ, pos, ◌*ℤ◌, ◌-ℤ◌}
use cubelang.Base.Text.{Text, lit}
use cubelang.Base.Dict.{lookup, insert}
use cubelang.Base.Equal.{list_equal}
use cubelang.Vsa.Hypervec.{
  Hypervec, bind, unbind, zip_with, replicate, cosine_sim, hamming_dist, hamming_dist_packed,
  pack_bits, count_ones,
}
use cubelang.Vsa.Codebook.{random_with_rng, get_cloned, generate, fnv_mix}
use cubelang.Vm.Value.{hvec}
use cubelang.Vm.State
use cubelang.Vm.State.{Vm, absent_role, recovered}
use cubelang.Vm.Frames.{
  frame_of, vsa_symbol_vec, vsa_role_vec, combined, note_binding, add_once, vsa_bind_into,
  vsa_unbind_cleanup_known, vsa_unbind_cleanup, cleanup_bound, recover_with, recover_nothing,
  record_recover, readable_reg, margin_of, rank, contest, pool_of,
}
use cubelang.Vm.Frames.Recover.{
  is_among, Grown, vsa_unbind_cleanup_known-among, vsa_unbind_cleanup_known_absent,
  vsa_bind_into-frame_of,
}
use cubelang.Examples.Parameters.{small_host, small_memory, small_codebook}

abbrev reg : Text
reg = lit "frame"

abbrev ones4 : Hypervec
ones4 = pos 1 ∷ pos 1 ∷ pos 1 ∷ pos 1 ∷ []

abbrev blank : Vm Bool
blank = record (State.blank small_host small_memory small_codebook) {
  registers = [];
  vsa_frames = [];
  recovers = [];
  name_table = [];
}

abbrev framed : Vm Bool
framed = record blank {
  registers = (reg, hvec ones4) ∷ [];
  vsa_frames = (reg, record { roles = lit "SUBJECT" ∷ []; fillers = lit "cat" ∷ [] }) ∷ [];
  vsa = record {
    seed = 42;
    dim = 4;
    cache = (lit "role:SUBJECT", ones4) ∷ (lit "cat", ones4) ∷ [];
  };
}

framed_by : vsa_bind_into small_host blank reg (lit "SUBJECT") (lit "cat") ≡ some framed
unfolding vsa_bind_into vsa_role_vec vsa_symbol_vec get_cloned generate fnv_mix lookup insert
    random_with_rng bind zip_with combined frame_of note_binding add_once ◌*ℤ◌
framed_by = refl

vsa_bind_into-frame_of_example :
    Grown small_host true (lit "SUBJECT") [] (frame_of small_host framed reg).roles (lit "SUBJECT")
    × Grown small_host true (lit "cat") [] (frame_of small_host framed reg).fillers (lit "SUBJECT")
unfolding frame_of lookup
vsa_bind_into-frame_of_example =
    vsa_bind_into-frame_of small_host blank reg (lit "SUBJECT") (lit "cat") framed reg
      (lit "SUBJECT") framed_by

abbrev hop : Vm Bool
hop = record framed {
  last_recover_similarity = some (pos 4);
  last_recover_runner_up = none;
  last_recover_reason = some recovered;
  recovers =
      record {
        reg = reg;
        role = lit "SUBJECT";
        winner = some (lit "cat");
        similarity = some (pos 4);
        runner_up = none;
        margin = none;
        pool = 1;
        reason = recovered;
      }
      ∷ [];
}

recovered_by :
    vsa_unbind_cleanup_known small_host framed reg (lit "SUBJECT")
    ≡ some (some (lit "cat", pos 4), hop)
unfolding vsa_unbind_cleanup_known frame_of lookup pool_of vsa_unbind_cleanup cleanup_bound
    recover_with vsa_role_vec vsa_symbol_vec get_cloned unbind bind zip_with rank contest cosine_sim
    hamming_dist hamming_dist_packed pack_bits replicate count_ones ◌*ℤ◌ ◌-ℤ◌ record_recover
    readable_reg margin_of
recovered_by = refl

has_roles : (length (frame_of small_host framed reg).roles == 0) ≡ false
unfolding frame_of lookup
has_roles = refl

has_fillers : (length (frame_of small_host framed reg).fillers == 0) ≡ false
unfolding frame_of lookup
has_fillers = refl

lacks_location : is_among (lit "LOCATION") (frame_of small_host framed reg).roles ≡ false
unfolding frame_of lookup
lacks_location = refl

vsa_unbind_cleanup_known-among_example :
    (is_among (lit "SUBJECT") (frame_of small_host framed reg).roles ≡ true)
    × (is_among (lit "cat") (frame_of small_host framed reg).fillers ≡ true)
    × (hop.last_recover_similarity ≡ some (pos 4))
    × (hop.last_recover_reason ≡ some recovered)
vsa_unbind_cleanup_known-among_example =
    vsa_unbind_cleanup_known-among small_host framed reg (lit "SUBJECT") (lit "cat") (pos 4) hop
      has_roles has_fillers recovered_by

abbrev missed : Vm Bool
missed = record framed {
  last_recover_similarity = none;
  last_recover_runner_up = none;
  last_recover_reason = some absent_role;
  recovers =
      record {
        reg = reg;
        role = lit "LOCATION";
        winner = none;
        similarity = none;
        runner_up = none;
        margin = none;
        pool = 1;
        reason = absent_role;
      }
      ∷ [];
}

missed_by : vsa_unbind_cleanup_known small_host framed reg (lit "LOCATION") ≡ some (none, missed)
unfolding vsa_unbind_cleanup_known frame_of lookup recover_nothing record_recover readable_reg
    margin_of
missed_by = refl

vsa_unbind_cleanup_known_absent_example :
    (◌≡◌ {A = Option (Text × ℤ)} none none)
    × (missed.last_recover_similarity ≡ none)
    × (missed.last_recover_reason ≡ some absent_role)
    × (missed.registers ≡ framed.registers)
    × (missed.vsa_frames ≡ framed.vsa_frames)
    × (missed.vsa ≡ framed.vsa)
vsa_unbind_cleanup_known_absent_example =
    vsa_unbind_cleanup_known_absent small_host framed reg (lit "LOCATION") none missed has_roles
      lacks_location missed_by
