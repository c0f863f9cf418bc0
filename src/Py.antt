-- ===== src/Py.antt =====
-- What the addon uses of Python: exceptions, JSON values, numbers in text, floats.
pub mod Exn
pub mod Number
pub mod Json
