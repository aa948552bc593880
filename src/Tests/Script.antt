-- ===== src/Tests/Script.antt =====
-- The graph script at concrete inputs: `(x + 3) / 2` for a local variable x, compiled and run.
use gqlite.Prelude.{
  ℕ, zero, suc, ◌+◌, ◌-◌, ◌*◌, ◌/◌, ◌<◌, ◌≡◌, refl, false, Option, none, some, List, [], ◌∷◌, ◌==◌,
  ltb, get_elem?, replicate, if◌then◌else◌, arith,
}
use gqlite.Prelude.Eq.{bytes_beq}
use gqlite.Prelude.Int.{pos, pos_part}
use gqlite.Gvm.Value
use gqlite.Gvm.Value.{Floats, Value, int, double, str, func, bool, Result, ok, err, runtime_error}
use gqlite.Gvm.Chunk
use gqlite.Gvm.Chunk.{Chunk, FunctionObj, empty_chunk, code_of}
use gqlite.Gvm.Compiler.{
  Compiler, done, minus_one, resolve_local, resolve_from, emit, emit_two, emit_variant,
  named_variant, with_chunk,
}
use gqlite.Gvm.Machine.{Vm, World}
use gqlite.Gvm.Expr.{
  Node, literal, variable, binary, add, divide, compile, compile_literal, operator_code,
}
use gqlite.Gvm.Expr.Meaning.{apply, eval, IsArithmetic, IsArithmeticOp, leaves}
use gqlite.Gvm.Expr.Grows.{Extends}
use gqlite.Gvm.Expr.Yields.{Yields, Holds}
use gqlite.Gvm.Expr.Correct.{compile-Yields}
use gqlite.Gvm.Expr.Typing.{
  Kind, kind_of, kind_of_op, infer, has_division, IsTyped, compile-IsTyped,
}

abbrev floats : Floats ℕ
floats = record {
  plus = (λ a b. a + b);
  minus = (λ a b. a - b);
  times = (λ a b. a * b);
  over = (λ a b. a / b);
  is_zero = (λ a. a == 0);
  of_ℤ = pos_part;
}

abbrev x : List ℕ
x = 120 ∷ []

abbrev inside : Compiler ℕ
inside = record {
  chunk = empty_chunk;
  variants = (λ i.
      if ltb i 1 then record { name = []; depth = minus_one } else record { name = x; depth = 1 });
  count = 2;
  scope_depth = 1;
}

abbrev formula : Node ℕ
formula = binary divide (binary add (variable x) (literal (int (pos 3)))) (literal (int (pos 2)))

abbrev compiled : Compiler ℕ
compiled = record inside {
  chunk = record {
    values = int (pos 3) ∷ int (pos 2) ∷ [];
    code = 3 ∷ 1 ∷ 15 ∷ 0 ∷ 7 ∷ 15 ∷ 1 ∷ 10 ∷ [];
  };
}

formula_compiles : compile inside formula ≡ done compiled
unfolding compile compile_literal named_variant resolve_local resolve_from emit_variant emit_two
    emit with_chunk Chunk.push Chunk.add_constant code_of operator_code
formula_compiles = refl

abbrev object : FunctionObj ℕ
object = record { arity = 0; chunk = compiled.chunk; name = [] }

abbrev world : World ℕ
world = record {
  floats = floats;
  functions = (λ a. some object);
  natives = (λ a args. int (pos 0));
  is_empty = λ v. false;
}

-- The function and the value of x are on the stack.
abbrev machine : Vm ℕ
machine = record {
  stack = func 1 ∷ double 7 ∷ replicate 6 (int (pos 0));
  top = 2;
  frames = record { ip = 0; fn = 1; slots = 0 } ∷ [];
  frame_size = 1;
  globals = [];
}

abbrev locals : ℕ → Value ℕ
locals i = if ltb i 1 then func 1 else double 7

abbrev slot : List ℕ → ℕ
slot name = 1

formula-IsArithmetic : IsArithmetic inside slot formula
unfolding IsArithmetic IsArithmeticOp resolve_local resolve_from
formula-IsArithmetic = (tt, (tt, refl, tt), tt)

slot_holds : (i : ℕ) → i < 2 → get_elem? machine.stack i ≡ some (locals i)
slot_holds zero lt = refl
slot_holds (suc zero) lt = refl
slot_holds (suc (suc i)) lt = ground arith

machine-Holds : Holds world 0 1 0 object refl machine locals 2
unfolding Holds
machine-Holds =
    (omega arith, λ i lt. (let same : 0 + i ≡ i = omega arith in rw same (slot_holds i lt)))

same_chunk : Extends compiled.chunk object.chunk
same_chunk = record { more_code = []; code = refl; more_values = []; values = refl }

compile-Yields_example : Yields world 0 1 0 object refl machine 8 (eval floats slot locals formula)
compile-Yields_example =
    compile-Yields world 0 1 0 object refl formula inside compiled slot locals machine
      formula_compiles formula-IsArithmetic same_chunk (omega arith) (omega arith) refl
      machine-Holds (unfold leaves in omega arith)

-- What it yields: the value 5.
formula_is_five : eval floats slot locals formula ≡ ok (double 5)
unfolding eval apply Value.add Value.divide
formula_is_five = refl

abbrev x_is_real : List ℕ → Option Kind
x_is_real name = if bytes_beq name x then some Kind.real else none

locals_fit :
    (name : List ℕ) (k : Kind) → x_is_real name ≡ some k → kind_of (locals (slot name)) ≡ some k
unfolding kind_of
locals_fit name k h = ground (arith, h)

formula_is_real : infer x_is_real formula ≡ some Kind.real
unfolding infer kind_of kind_of_op
formula_is_real = refl

compile-IsTyped_example :
    (r : Result (Value ℕ)) × Yields world 0 1 0 object refl machine 8 r
    × IsTyped (has_division formula) Kind.real r
compile-IsTyped_example =
    compile-IsTyped world 0 1 0 object refl formula inside compiled slot locals machine x_is_real
      Kind.real locals_fit formula_is_real formula_compiles formula-IsArithmetic same_chunk
      (omega arith) (omega arith) refl machine-Holds (unfold leaves in omega arith)

-- A sum of a text and a number has no type.
text_and_number : infer {D = ℕ} x_is_real (binary add (literal (str x)) (variable x)) ≡ none
unfolding infer kind_of kind_of_op
text_and_number = refl
