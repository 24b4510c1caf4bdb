-- ===== src/Sim/Array.antt =====
-- `SimArray` of plugin/sim_plugin/simarray.py: transactions on the state file, the `_handle_errors`
-- decorator and the reading of ids in `Session`, and the methods, by what they work on.
pub mod Session
pub mod Atomic
pub mod Dependencies
pub mod Volumes
pub mod Groups
pub mod Filesystems
pub mod Jobs
pub mod Systems
pub mod Raid
pub mod Listings
