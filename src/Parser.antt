-- ===== src/Parser.antt =====
-- include/eosio/vm/parser.hpp: the binary parser. A method that reads is a `Read` over the code
-- pointer, with the members of the parser and the options that it uses as arguments.
pub mod Primitives
pub mod Limits
pub mod Entries
pub mod Segments
pub mod Tables
pub mod Sections
pub mod OperandStack
pub mod Locals
pub mod Names
