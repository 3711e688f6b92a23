-- ===== src/Tests.antt =====
-- Concrete runs, and the theorems on concrete inputs.
pub mod Samples
pub mod Table
pub mod Wire
pub mod Methods
pub mod Streams
pub mod Windows
pub mod Calls
pub mod Races
pub mod Schedules
pub mod Dialogues
pub mod Hosts
