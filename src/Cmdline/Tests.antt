-- ===== src/Cmdline/Tests.antt =====
-- Ranges on which the theorems of Cmdline are applied.
use libstoragemgmt.Base.{ℕ, zero, suc, ◌*◌, ◌≡◌, refl, ◌↔◌, true, List, [], ◌∷◌, is_some, arith}
use libstoragemgmt.Cmdline.{
  BlockRange, insert, sort, overlap, check_overlap, ranges_of, replicate_ranges,
}
use libstoragemgmt.Base.{some, none, pos, false}
use libstoragemgmt.Doubles.{one, sub_double, fl, rounded, nearest}
use libstoragemgmt.Text.{codes, int, last}
use libstoragemgmt.Text.Hex.{is_hex}
use libstoragemgmt.Sql.{select, delete}
use libstoragemgmt.Sim.Tables.{Db, Job, job_data_vol}
use libstoragemgmt.Sim.Tests.{sample, volume}
use libstoragemgmt.Sim.Cascade.{sim_data_of_id}
use libstoragemgmt.Sim.Volumes.{sim_vol_of_id}
use libstoragemgmt.Sim.Ids.{lsm_id_to_sim_id}
use libstoragemgmt.Sim.Jobs.{made_vol, job_result}
use libstoragemgmt.Sim.Array.Jobs.{job_status, job_free}
use libstoragemgmt.Cmdline.Waiting.{returned, wait_for_it}
use libstoragemgmt.Cmdline.Waiting.Simulated.{connected, wait_for_it_complete}
use libstoragemgmt.Cmdline.Address.{
  valid_ip4_address, valid_ip6_address, is_valid_network_name, split, has, every, valid_part,
}
use libstoragemgmt.Cmdline.Address.Dotted.{IsDotted, digits_or_dots, valid_ip4_address_iff}
use libstoragemgmt.Cmdline.Overlap.{BothDisjoint, check_overlap_iff}
use libstoragemgmt.Cmdline.Ranges.{Within, replicate_ranges-Within}

abbrev later : BlockRange
later = record { src_block = 8; dest_block = 0; block_count = 4 }

abbrev first : BlockRange
first = record { src_block = 2; dest_block = 9; block_count = 6 }

abbrev two_ranges : List BlockRange
two_ranges = later ∷ first ∷ []

check_overlap_iff_example : (is_some (check_overlap two_ranges) ≡ true) ↔ BothDisjoint two_ranges
check_overlap_iff_example = check_overlap_iff two_ranges (omega arith, (omega arith, tt))

replicate_ranges-Within_example : Within 12 15 two_ranges × BothDisjoint two_ranges
unfolding replicate_ranges ranges_of check_overlap sort insert overlap
replicate_ranges-Within_example =
    replicate_ranges-Within 12 15 (2 ∷ 8 ∷ []) (9 ∷ 0 ∷ []) (6 ∷ 4 ∷ []) two_ranges refl

valid_ip4_address_iff_example :
    (valid_ip4_address (codes "10.0.0.255") ≡ true) ↔ IsDotted (codes "10.0.0.255")
unfolding digits_or_dots
valid_ip4_address_iff_example = valid_ip4_address_iff (codes "10.0.0.255") refl

-- a part may have a sign, a blank or an underscore, as `int` reads these
signed_address : valid_ip4_address (codes "-1.0. 1.1_2") ≡ true
unfolding valid_ip4_address split has every valid_part int
signed_address = refl

full_ip6_address : valid_ip6_address (codes "2001:470:1f09:efe:a64e:31ff:0:1") ≡ true
unfolding valid_ip6_address has split every is_hex
full_ip6_address = refl

three_colons : valid_ip6_address (codes ":::") ≡ true
unfolding valid_ip6_address has split every is_hex
three_colons = refl

leading_colon : valid_ip6_address (codes ":1:2:3:4:5:6:7") ≡ true
unfolding valid_ip6_address has split every is_hex
leading_colon = refl

host_name : is_valid_network_name (codes "san-01.example.com.") ≡ some true
unfolding is_valid_network_name valid_ip4_address valid_ip6_address has split every is_hex
    valid_part int
host_name = refl

hyphen_name : is_valid_network_name (codes "san-.example.com") ≡ some false
unfolding is_valid_network_name valid_ip4_address valid_ip6_address has split every is_hex
    valid_part int
hyphen_name = refl

no_name : is_valid_network_name [] ≡ none
unfolding is_valid_network_name
no_name = refl

-- a job that made the volume 1, from second 5 on for 10 seconds
abbrev job : Job
job = record {
  id = 1;
  duration = 10 * one;
  timestamp = 5 * one;
  job_data = some (job_data_vol, pos 1);
}

abbrev busy : Db
busy = record sample { jobs = job ∷ [] }

-- polls at seconds 6, 14, 12 and 16
abbrev clock : ℕ → ℕ
clock zero = 6 * one
clock (suc zero) = 14 * one
clock (suc (suc zero)) = 12 * one
clock (suc (suc (suc k))) = 16 * one

passed : sub_double (16 * one) (5 * one) ≡ 11 * one
unfolding sub_double fl rounded nearest one
passed = refl

wait_for_it_complete_example :
    wait_for_it false true
      (λ r. job_status (clock r) (codes "JOB_ID_00001"))
      (job_free (codes "JOB_ID_00001"))
      none
      5
      (connected busy)
    ≡ (returned (some (made_vol volume)), connected sample)
unfolding lsm_id_to_sim_id int last select delete job_result sim_vol_of_id sim_data_of_id
wait_for_it_complete_example =
    wait_for_it_complete (codes "JOB_ID_00001") (pos 1) job (some (made_vol volume)) busy refl refl
      refl clock 3 4 none (omega arith) (rw passed (omega arith))
