-- ===== src/Lib.antt =====
-- eos-vm: an interpreter for WebAssembly modules, written in C++ under include/eosio/vm.
--
-- A module arrives as bytes. The binary parser (parser.hpp) reads them through a guarded pointer
-- (guarded_ptr.hpp), decodes numbers with LEB128 (leb128.hpp), checks every section entry against
-- the options (options.hpp) and the module read so far (types.hpp), and validates function bodies
-- with a stack of types and a stack of control. As it validates, it writes the instructions
-- (bitcode_writer.hpp) and fixes the branches of a block once its end is known. The interpreter
-- (interpret_visitor.hpp) then runs the instructions on a stack of operands (stack_elem.hpp,
-- wasm_stack.hpp) and a linear memory (allocator.hpp, execution_context.hpp), and a watchdog
-- (watchdog.hpp) may interrupt it.
--
-- Which file models which part:
--   Prelude       names passed on, lists, exceptions as values, facts on bits and words
--   GuardedPtr    guarded_ptr.hpp: a method that moves the pointer is a `Read`, a function from the
--                 pointer to a value and the moved pointer, or to an exception; GuardedPtr.Ensures says
--                 what a `Read` guarantees from a valid pointer
--   Leb128        leb128.hpp: varuint and varint, decoding from a pointer and encoding
--   Types         types.hpp: the module and its entries, operator== on function types
--   Options       options.hpp, and the option getters at the top of parser.hpp
--   Parser        parser.hpp: Primitives has the raw reads and names, Limits the counters of bytes,
--                 Entries and Segments the entries of the sections, Tables the type aliases and the test
--                 for duplicate exports, Names the custom sections, Sections the sections and their order,
--                 OperandStack the type stack of the validation, Locals the types of a function's locals
--   Writer        bitcode_writer.hpp: the code written so far, and the cells that branches jump through
--   Body          parser.hpp, parse_function_body_code: an instruction is an action on the state of the
--                 function, the pointer and the writer; Tables has the rows of the macros, Control, Plain
--                 and Vector the cases of the switch, Code the loop; Keeps has rules for what actions
--                 keep, Typing the types of straight code
--   Binary        parser.hpp, parse_module: the parser of whole modules, a state that holds the module.
--                 Functions is write_code_out, Sections the switch over the sections and the loop;
--                 Ends has rules for code on fuel, WellFormed the invariant of the loop
--   Interpreter   Memory has wasm_allocator of allocator.hpp, grow_linear_memory of
--                 execution_context.hpp and the unaligned loads and stores; Operand is stack_elem.hpp;
--                 Integers and Visitor are the handlers of interpret_visitor.hpp, and Dispatch gives them
--                 to the opcodes of opcodes_def.hpp; Stack is the class of wasm_stack.hpp and the jump on
--                 it, and Calls the calls and returns of execution_context.hpp; Bulk is memory.copy, memory.fill
--                 and table.copy, and Segments has reset, the instructions on data and element segments
--                 and the function that call_indirect calls
--   Watchdog      watchdog.hpp: the guard that interrupts a run, as a step relation of the two threads and
--                 the clock
--   Tests         runs at concrete inputs
--
-- Conventions. A byte is a number below 256, a w-bit integer the number below 2 ^ w of its bits, and
-- wrap-around is written out. An exception is an error value; messages are left out. Undefined
-- behaviour, such as a read outside an object, is the error `undefined`, which no C++ exception is. The
-- default configuration is modelled: memory addresses are not aligned up (should_align_memory_ops is
-- false). A protected page raises a memory exception through the signal handler before anything is
-- read or written, and the system calls of the allocator succeed.
--
-- Bounds and fuel. Loops over a counted vector recurse on the count. The loop of a LEB128 number runs
-- at most bytes_needed rounds, after which the code throws. The loop over the code points of a name runs
-- on as much fuel as the name has bytes, and each code point takes at least one. The loop over the
-- instructions of a function runs on fuel, which is enough where it is more than the bytes that are left
-- to the end of the body, since each round reads an opcode. The loop over
-- the sections of a module runs on fuel as well: each round reads the id of a section, so more fuel than
-- bytes is enough, for it and for the bodies. A handler of a bulk instruction moves one element and is called
-- again until its size is 0, so more fuel than elements is enough. The size of an opcode in bytes, which the
-- compiler chooses, is the parameter opcode_bytes.
--
-- Not modelled: the handlers of floats and vectors, which call softfloat or hardware operations;
-- the handlers of control instructions but for the function that
-- call_indirect calls, and those of locals and globals; the pointers to globals and table that reset
-- writes in front of the memory; the debug information; options with
-- max_stack_bytes, which count a function's stack in bytes; the x86-64 code generator; host functions, signals, profiling and debugging;
-- memory that system calls manage behind the allocators.
pub mod Prelude
pub mod GuardedPtr
pub mod Leb128
pub mod Types
pub mod Options
pub mod Writer
pub mod Watchdog
pub mod Parser
pub mod Body
pub mod Binary
pub mod Interpreter
pub mod Tests
