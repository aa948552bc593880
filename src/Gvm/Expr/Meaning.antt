-- ===== src/Gvm/Expr/Meaning.antt =====
-- What an expression over literals and local variables means: its value, or the error that the first
-- operation that fails throws.
use gqlite.Prelude.{ℕ, ◌+◌, ◌≡◌, some, List}
use gqlite.Gvm.Value
use gqlite.Gvm.Value.{Floats, Value, Error, bad_cast, Result, ok, err, ◌>>=◌}
use gqlite.Gvm.Compiler.{Compiler, done, resolve_local}
use gqlite.Gvm.Expr.{Operator, add, subtract, multiply, divide, Node, literal, variable, binary}

module _ {D : Type 0} (fl : Floats D) where
  unfoldable pub apply : Operator → Value D → Value D → Result (Value D)
  apply add a b = Value.add fl a b
  apply subtract a b = Value.subtract fl a b
  apply multiply a b = Value.multiply fl a b
  apply divide a b = Value.divide fl a b
  apply _ a b = err bad_cast

  -- The value of an expression, for the values of the local variables by their slots.
  unfoldable pub eval : (List ℕ → ℕ) → (ℕ → Value D) → Node D → Result (Value D)
  unfolding apply
  eval slot locals (literal v) = ok v
  eval slot locals (variable name) = ok (locals (slot name))
  eval slot locals (binary op left right) =
      eval slot locals left >>= λ a. eval slot locals right >>= λ b. apply op a b

unfoldable pub IsArithmeticOp : Operator → Type 0
IsArithmeticOp add = Unit
IsArithmeticOp subtract = Unit
IsArithmeticOp multiply = Unit
IsArithmeticOp divide = Unit
IsArithmeticOp _ = ⊥

module _ {D : Type 0} where
  -- An expression of the four operations, whose variables are local to the compiler, in these slots.
  unfoldable pub IsArithmetic : Compiler D → (List ℕ → ℕ) → Node D → Type 0
  IsArithmetic c slot (literal v) = Unit
  IsArithmetic c slot (variable name) = resolve_local c name ≡ done (some (slot name))
  IsArithmetic c slot (binary op left right) =
      IsArithmeticOp op × IsArithmetic c slot left × IsArithmetic c slot right

  -- The leaves of an expression; its code needs no more slots of the stack than these.
  unfoldable pub leaves : Node D → ℕ
  leaves (literal v) = 1
  leaves (variable name) = 1
  leaves (binary op left right) = leaves left + leaves right
