-- ===== src/Js.antt =====
-- The parts of JavaScript that the sources use: lower-casing, numbers and JSON-like values.
pub mod Text
pub mod Value
pub mod Print
pub mod Spread
