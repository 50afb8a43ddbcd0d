-- ===== src/Tests.antt =====
-- Concrete runs of the models of src/, and an instance of each general statement.
pub mod Queue
pub mod Sample
pub mod Calls
pub mod Services
pub mod Tasks
pub mod Slots
pub mod Feeds
pub mod Units
pub mod Ends
pub mod Races
pub mod Apart
pub mod Orders
pub mod System
pub mod Slow
pub mod Fifo
pub mod Gateway
