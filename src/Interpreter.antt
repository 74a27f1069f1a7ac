-- ===== src/Interpreter.antt =====
-- include/eosio/vm/interpret_visitor.hpp, execution_context.hpp, wasm_stack.hpp and the wasm_allocator
-- of allocator.hpp: the interpreter and the state it works on.
pub mod Memory
pub mod Stack
pub mod Operand
pub mod Integers
pub mod Visitor
pub mod Dispatch
pub mod Calls
pub mod Bulk
pub mod Segments
