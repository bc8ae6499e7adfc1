-- ===== src/Schedule.antt =====
-- src/mimic_schedule.cpp. The children hold the state, the operations, and what is proved of them.
pub mod State
pub mod Policy
pub mod Updown
pub mod Report
pub mod Manual
pub mod Lists
pub mod Picks
pub mod HostPicks
pub mod Swaps
pub mod Weights
pub mod LeastLoaded
pub mod Dispatch
pub mod Life
pub mod Start
pub mod Tests
