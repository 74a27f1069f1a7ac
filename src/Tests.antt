-- ===== src/Tests.antt =====
-- Runs on concrete inputs, and the theorems at concrete inputs.
mod Parsing
mod Modules
mod Segments
mod Execution
mod Calls
mod Functions
mod Threads
