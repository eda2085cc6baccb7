-- ===== src/Python.antt =====
-- What the program uses of Python: text, numbers, codecs and exceptions.
pub mod Text
pub mod Number
pub mod Codec
pub mod Outcome
pub mod Exec
