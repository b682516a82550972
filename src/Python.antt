-- ===== src/Python.antt =====
-- The parts of Python's own library that the scripts use: searching and slicing `bytes`, texts,
-- numbers written as text, and JSON values.
pub mod Bytes
pub mod Text
pub mod Integer
pub mod Json
pub mod Path
pub mod Format
