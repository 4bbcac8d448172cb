-- ===== src/Examples.antt =====
-- The theorems at concrete inputs.
pub mod Shop
pub mod ShopLaws
mod Policies
mod Markers
pub mod Prices
mod Runs
pub mod Windows
mod Schedules
pub mod BakeryLaws
pub mod BakerySort
pub mod Bakery
mod Jobs
mod Histories
pub mod Desk
mod Sources
mod Traces
