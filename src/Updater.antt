-- ===== src/Updater.antt =====
-- scripts/uu_update_manager.py: the tasks of `Manager`, the files in which it keeps them, and what is
-- written to these. What the rest of the machine says (the clock, git, the network, the helpers that
-- are started) is a record of observations, an argument of each command.
pub mod Tasks
pub mod Ids
pub mod Actions
pub mod Version
pub mod Config
pub mod Download
pub mod Staging
pub mod Budget
pub mod Promotion
pub mod Repair
pub mod Queue
pub mod Health
pub mod Releases
pub mod Check
pub mod Commands
pub mod Lifecycle
