-- ===== src/Urllib.antt =====
-- What the program uses of Python's urllib.parse, on code points.
pub mod Utf8
pub mod Percent
pub mod Split
