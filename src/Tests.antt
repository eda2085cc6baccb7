-- ===== src/Tests.antt =====
-- Runs of the model at concrete data, and the theorems at inputs that meet their hypotheses.
mod Daemon
mod Takeover
mod Results
mod Session
mod Scripts
mod Main
mod Target
mod Exchange
mod Register
mod TargetExchange
mod Overlap
mod File
mod Server
