-- ===== src/Collections.antt =====
-- `std::collections::{HashMap, HashSet}` as the program uses them.
pub mod HashMap
pub mod HashSet
pub mod Keys
