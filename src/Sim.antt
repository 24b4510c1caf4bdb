-- ===== src/Sim.antt =====
-- plugin/sim_plugin/simarray.py: the simulated storage array.
pub mod Constants
pub mod Plugin
pub mod Tables
pub mod Exec
pub mod Raid
pub mod Ids
pub mod Cascade
pub mod Pools
pub mod Volumes
pub mod Groups
pub mod Masks
pub mod Filesystems
pub mod Exports
pub mod Jobs
pub mod Array
pub mod Start
pub mod Sound
pub mod Tests
