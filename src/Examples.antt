-- ===== src/Examples.antt =====
-- Concrete inputs at which the hypotheses of the theorems hold.
pub mod Pools
pub mod Lists
pub mod Caches
pub mod Boot
pub mod Tables
pub mod Start
pub mod Manager
pub mod Tags
