-- ===== src/Tests.antt =====
-- The theorems at concrete inputs, and runs of the definitions.
mod FrontEnds
mod Histories
mod Logging
mod Pipes
mod Commands
mod Loops
mod Resending
mod Servers
mod Wire
mod Diagrams
mod Debugging
mod Generation
mod Golden
