-- ===== src/Daemon.antt =====
-- ipbench2/src/ipbenchd.py, the daemon.
pub mod TestStatus
pub mod Status
pub mod Machine
pub mod Main
pub mod Shunt
pub mod World
pub mod Commands
pub mod Common
pub mod Listen
pub mod Setup
pub mod Run
pub mod Finish
pub mod Invariant
pub mod Handle
pub mod Target
pub mod Processes
pub mod Server
