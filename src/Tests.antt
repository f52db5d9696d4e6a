-- ===== src/Tests.antt =====
-- Runs of the models on concrete inputs.
pub mod Machine
pub mod Texts
pub mod Runs
pub mod Updates
pub mod Sessions
pub mod Daemons
pub mod Webs
pub mod Panels
