-- ===== src/Python.antt =====
-- What the source uses of Python itself: exceptions as values, and JSON values with their
-- conversion by `int`.
pub mod Except
pub mod Date
pub mod Regex
pub mod Text
pub mod Round
pub mod Ascii
pub mod Json
