-- ===== src/Samples.antt =====
-- Concrete inputs for the theorems of the library: sorting routines that keep the documented laws,
-- small score rows, graphs and cases.
pub mod Sorting
mod Comparison
mod Graphs
mod Kernels
mod References
mod Lifecycles
mod Labels
mod Configs
mod Profiles
mod Campaigns
mod Evidence
mod Rows
