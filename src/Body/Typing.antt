-- ===== src/Body/Typing.antt =====
-- Validation and the handlers of the interpreter agree on the types of the operands, in straight code.
mod Handlers
pub mod Operands
pub mod Checks
mod Runs
pub mod Straight
