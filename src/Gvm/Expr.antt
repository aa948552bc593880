-- ===== src/Gvm/Expr.antt =====
-- src/base/lang/visitor/VariantVisitor.cpp and include/base/lang/GQLExpression.h: how the literals,
-- variables and binary expressions of a graph script are compiled. A literal stands for the value that
-- `getVariant` reads from its text.
pub mod Meaning
pub mod Grows
pub mod Runs
pub mod Yields
pub mod Correct
pub mod Typing
use gqlite.Prelude.{ℕ, ◌+◌, ◌%◌, ◌≡◌, Bool, true, false, List, length}
use gqlite.Gvm.Value.{Value}
use gqlite.Gvm.Chunk
use gqlite.Gvm.Chunk.{code_of, constant, Chunk}
use gqlite.Gvm.Compiler.{
  ◌>>=◌, Compiler, Compiled, done, compile_error, overrun, emit, emit_two, named_variant,
}

-- `GBinaryExpression::Operator`: the codes go on behind `OP_DIVIDE`.
pub data Operator : Type 0 where
  add subtract multiply divide assign equal great_than great_equal_than less_than less_equal_than :
      Operator

unfoldable pub operator_code : Operator → ℕ
operator_code add = 7
operator_code subtract = 8
operator_code multiply = 9
operator_code divide = 10
operator_code assign = 11
operator_code equal = 12
operator_code great_than = 13
operator_code great_equal_than = 14
operator_code less_than = 15
operator_code less_equal_than = 16

pub data Node (D : Type 0) : Type 0 where
  literal : Value D → Node D
  variable : List ℕ → Node D
  binary : Operator → Node D → Node D → Node D

module _ {D : Type 0} where
  -- The constant, then the instruction with its index as a byte.
  unfoldable pub compile_literal : Compiler D → Value D → Compiled (Compiler D)
  unfolding Chunk.add_constant emit_two code_of
  compile_literal c v =
      let (chunk, index) = Chunk.add_constant c.chunk v in
      emit_two (record c { chunk = chunk }) (code_of constant) index

  -- `accept(node, &visitor)` of `GVariantVisitor`.
  unfoldable pub compile : Compiler D → Node D → Compiled (Compiler D)
  unfolding compile_literal named_variant emit operator_code
  compile c (literal v) = compile_literal c v
  compile c (variable name) = named_variant c name false
  compile c (binary op left right) =
      compile c left >>= λ c'. compile c' right >>= λ c''. emit c'' (operator_code op)
