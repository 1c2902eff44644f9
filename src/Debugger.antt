-- ===== src/Debugger.antt =====
-- The debugger: src/debugger. `Trace` reads what a run left in the data base, `Sequence` draws it,
-- `Diagrams` keeps the drawings, and `Application` is what the user moves through.
pub mod Repeat
pub mod Sequence
pub mod Trace
pub mod Diagrams
pub mod Application
