-- ===== src/Controller.antt =====
-- ipbench2/src/ipbench.py, the controller.
pub mod ReturnCode
pub mod Socket
pub mod Unmarshall
pub mod Client
pub mod Target
pub mod Options
pub mod Config
pub mod Bench
pub mod Poll
pub mod Main
