-- ===== src/Scripts.antt =====
-- The scripts of helpers/scripts.
pub mod Ununmarshall
