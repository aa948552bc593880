-- ===== src/Gvm.antt =====
-- src/base/gvm: the values, the byte code, the compiler's local variables and the stack machine of
-- the graph script.
pub mod Value
pub mod Chunk
pub mod Compiler
pub mod Expr
pub mod Machine
pub mod Run
