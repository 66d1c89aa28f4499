-- ===== src/Python.antt =====
-- The parts of Python's built-in types that the program uses, over lists of code points.
pub mod Strip
pub mod Split
pub mod Utf8
pub mod Number
pub mod Ipaddress
