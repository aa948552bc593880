-- ===== src/Gvm/Expr/Typing.antt =====
-- src/base/gvm/Value.cpp and src/base/lang/visitor/VariantVisitor.cpp: the types of expressions.
use gqlite.Prelude.{
  ℕ, ◌+◌, ◌≤◌, ◌≡◌, refl, Bool, true, false, ◌||◌, Option, none, some, List, length, arith,
}
use gqlite.Prelude.Int.{ℤ, pos, negsuc}
use gqlite.Gvm.Value
use gqlite.Gvm.Value.{
  Floats, Value, double, str, bool, int, Error, runtime_error, bad_cast, Result, ok, err, ◌>>=◌,
}
use gqlite.Gvm.Chunk.{FunctionObj}
use gqlite.Gvm.Compiler.{Compiler, done}
use gqlite.Gvm.Machine.{Vm, World}
use gqlite.Gvm.Expr.{
  Operator, add, subtract, multiply, divide, Node, literal, variable, binary, compile,
}
use gqlite.Gvm.Expr.Meaning.{apply, eval, IsArithmetic, leaves}
use gqlite.Gvm.Expr.Grows.{Extends}
use gqlite.Gvm.Expr.Runs.{At}
use gqlite.Gvm.Expr.Yields.{Yields, Holds}
use gqlite.Gvm.Expr.Correct.{compile-Yields}

pub data Kind : Type 0 where
  real whole text truth : Kind

abbrev numbers : Kind → Kind → Option Kind
numbers real real = some real
numbers real whole = some real
numbers whole real = some real
numbers whole whole = some real
numbers _ _ = none

abbrev or_truth : Kind → Kind → Option Kind
or_truth truth truth = some truth
or_truth s t = numbers s t

-- The type of an operation on operands of these types.
unfoldable pub kind_of_op : Operator → Kind → Kind → Option Kind
kind_of_op add text text = some text
kind_of_op add s t = or_truth s t
kind_of_op subtract s t = or_truth s t
kind_of_op multiply s t = or_truth s t
kind_of_op divide s t = numbers s t
kind_of_op _ s t = none

abbrev is_divide : Operator → Bool
is_divide divide = true
is_divide _ = false

abbrev both : Operator → Option Kind → Option Kind → Option Kind
both op (some s) (some t) = kind_of_op op s t
both op _ _ = none

module _ {D : Type 0} where
  unfoldable pub kind_of : Value D → Option Kind
  kind_of (double x) = some real
  kind_of (int n) = some whole
  kind_of (str s) = some text
  kind_of (bool b) = some truth
  kind_of _ = none

  -- The type of an expression, for the types of its variables.
  unfoldable pub infer : (List ℕ → Option Kind) → Node D → Option Kind
  unfolding kind_of
  infer env (literal v) = kind_of v
  infer env (variable name) = env name
  infer env (binary op left right) = both op (infer env left) (infer env right)

  unfoldable pub has_division : Node D → Bool
  has_division (binary op left right) = is_divide op || (has_division left || has_division right)
  has_division _ = false

  -- A value of the type; an error only at runtime, and only if it may divide.
  abbrev pub IsTyped : Bool → Kind → Result (Value D) → Type 0
  IsTyped divides k (ok v) = kind_of v ≡ some k
  IsTyped divides k (err runtime_error) = divides ≡ true
  IsTyped divides k (err bad_cast) = ⊥

module _ {D : Type 0} (fl : Floats D) where
  -- Values by their types.
  data HasKind : Value D → Kind → Type 0 where
    real : (x : D) → HasKind (double x) Kind.real
    whole : (n : ℤ) → HasKind (int n) Kind.whole
    text : (l : List ℕ) → HasKind (str l) Kind.text
    truth : (b : Bool) → HasKind (bool b) Kind.truth

  kind_of-HasKind : (v : Value D) (k : Kind) → kind_of v ≡ some k → HasKind v k
  unfolding kind_of
  kind_of-HasKind (double x) Kind.real h = real x
  kind_of-HasKind (int n) Kind.whole h = whole n
  kind_of-HasKind (str l) Kind.text h = text l
  kind_of-HasKind (bool b) Kind.truth h = truth b
  kind_of-HasKind _ _ h = absurd (cc)

  add-IsTyped :
      {a b : Value D} {s t k : Kind}
      → HasKind a s
      → HasKind b t
      → kind_of_op add s t ≡ some k
      → IsTyped false k (Value.add fl a b)
  unfolding kind_of kind_of_op Value.add
  add-IsTyped (real x) (real y) h = h
  add-IsTyped (real x) (whole y) h = h
  add-IsTyped (whole x) (real y) h = h
  add-IsTyped (whole x) (whole y) h = h
  add-IsTyped (text x) (text y) h = h
  add-IsTyped (truth x) (truth y) h = h
  add-IsTyped _ _ h = absurd (cc)

  subtract-IsTyped :
      {a b : Value D} {s t k : Kind}
      → HasKind a s
      → HasKind b t
      → kind_of_op subtract s t ≡ some k
      → IsTyped false k (Value.subtract fl a b)
  unfolding kind_of kind_of_op Value.subtract
  subtract-IsTyped (real x) (real y) h = h
  subtract-IsTyped (real x) (whole y) h = h
  subtract-IsTyped (whole x) (real y) h = h
  subtract-IsTyped (whole x) (whole y) h = h
  subtract-IsTyped (truth x) (truth y) h = h
  subtract-IsTyped _ _ h = absurd (cc)

  multiply-IsTyped :
      {a b : Value D} {s t k : Kind}
      → HasKind a s
      → HasKind b t
      → kind_of_op multiply s t ≡ some k
      → IsTyped false k (Value.multiply fl a b)
  unfolding kind_of kind_of_op Value.multiply
  multiply-IsTyped (real x) (real y) h = h
  multiply-IsTyped (real x) (whole y) h = h
  multiply-IsTyped (whole x) (real y) h = h
  multiply-IsTyped (whole x) (whole y) h = h
  multiply-IsTyped (truth x) (truth y) h = h
  multiply-IsTyped _ _ h = absurd (cc)

  divide-IsTyped :
      {a b : Value D} {s t k : Kind}
      → HasKind a s
      → HasKind b t
      → kind_of_op divide s t ≡ some k
      → IsTyped true k (Value.divide fl a b)
  unfolding kind_of kind_of_op Value.divide
  divide-IsTyped (real x) (real y) h = ground (arith, h)
  divide-IsTyped (real x) (whole (pos n)) h = ground (arith, h)
  divide-IsTyped (real x) (whole (negsuc n)) h = ground (arith, h)
  divide-IsTyped (whole x) (real y) h = ground (arith, h)
  divide-IsTyped (whole x) (whole (pos n)) h = ground (arith, h)
  divide-IsTyped (whole x) (whole (negsuc n)) h = ground (arith, h)
  divide-IsTyped _ _ h = absurd (cc)

  apply-IsTyped :
      (op : Operator) (a b : Value D) (s t k : Kind)
      → kind_of a ≡ some s
      → kind_of b ≡ some t
      → kind_of_op op s t ≡ some k
      → IsTyped (is_divide op) k (apply fl op a b)
  unfolding apply kind_of_op
  apply-IsTyped add a b s t k ha hb h =
      add-IsTyped (kind_of-HasKind a s ha) (kind_of-HasKind b t hb) h
  apply-IsTyped subtract a b s t k ha hb h =
      subtract-IsTyped (kind_of-HasKind a s ha) (kind_of-HasKind b t hb) h
  apply-IsTyped multiply a b s t k ha hb h =
      multiply-IsTyped (kind_of-HasKind a s ha) (kind_of-HasKind b t hb) h
  apply-IsTyped divide a b s t k ha hb h =
      divide-IsTyped (kind_of-HasKind a s ha) (kind_of-HasKind b t hb) h
  apply-IsTyped _ a b s t k ha hb h = absurd (cc)

  weaken :
      (c d : Bool) (k : Kind) (r : Result (Value D))
      → (c ≡ true → d ≡ true)
      → IsTyped c k r
      → IsTyped d k r
  weaken c d k (ok v) i h = h
  weaken c d k (err runtime_error) i h = i h
  weaken c d k (err bad_cast) i h = h

  both-inv :
      (op : Operator) (a b : Option Kind) (k : Kind)
      → both op a b ≡ some k
      → (s : Kind) × (t : Kind) × (a ≡ some s) × (b ≡ some t) × (kind_of_op op s t ≡ some k)
  both-inv op (some s) (some t) k h = (s, t, refl, refl, h)
  both-inv op none b k h = absurd (cc)
  both-inv op (some s) none k h = absurd (cc)

  module _ (env : List ℕ → Option Kind) (slot : List ℕ → ℕ) (locals : ℕ → Value D)
      (fits : (name : List ℕ) (k : Kind)
        → env name ≡ some k
        → kind_of (locals (slot name)) ≡ some k) where
    binary-IsTyped :
        (op : Operator) (l r d : Bool) (s t k : Kind) (x y : Result (Value D))
        → kind_of_op op s t ≡ some k
        → IsTyped l s x
        → IsTyped r t y
        → d ≡ (is_divide op || (l || r))
        → IsTyped d k (x >>= λ a. y >>= λ b. apply fl op a b)
    binary-IsTyped op l r d s t k (ok a) (ok b) h p q e =
        weaken (is_divide op) d k (apply fl op a b) (λ g. ground (arith, e, g))
          (apply-IsTyped op a b s t k p q h)
    binary-IsTyped op l r d s t k (ok a) (err runtime_error) h p q e = ground (arith, e, q)
    binary-IsTyped op l r d s t k (ok a) (err bad_cast) h p q e = q
    binary-IsTyped op l r d s t k (err runtime_error) y h p q e = ground (arith, e, p)
    binary-IsTyped op l r d s t k (err bad_cast) y h p q e = p

    eval-IsTyped :
        (e : Node D) (k : Kind)
        → infer env e ≡ some k
        → IsTyped (has_division e) k (eval fl slot locals e)
    unfolding infer eval has_division
    eval-IsTyped (literal v) k h = h
    eval-IsTyped (variable name) k h = fits name k h
    eval-IsTyped (binary op left right) k h =
        let (s, t, p, q, o) = both-inv op (infer env left) (infer env right) k h in
        binary-IsTyped op (has_division left) (has_division right) _ s t k
          (eval fl slot locals left) (eval fl slot locals right) o (eval-IsTyped left s p)
          (eval-IsTyped right t q) refl

module _ {D : Type 0} (w : World D) (base fn slots : ℕ) (o : FunctionObj D)
    (known : w.functions fn ≡ some o) where
  -- The machine, run on the compiled code of an expression that has a type, for variables with values
  -- of their types, and under the conditions of the compilation, yields a value of that type, or
  -- throws a runtime error, which it does only if the expression divides; it never throws a bad cast.
  pub compile-IsTyped :
      (e : Node D) (c d : Compiler D) (slot : List ℕ → ℕ) (locals : ℕ → Value D) (vm : Vm D)
      (env : List ℕ → Option Kind) (k : Kind)
      → ((name : List ℕ) (j : Kind) → env name ≡ some j → kind_of (locals (slot name)) ≡ some j)
      → infer env e ≡ some k
      → compile c e ≡ done d
      → IsArithmetic c slot e
      → Extends d.chunk o.chunk
      → length o.chunk.values ≤ 256
      → c.count ≤ 255
      → At base fn slots vm (length c.chunk.code)
      → Holds w base fn slots o known vm locals c.count
      → vm.top + leaves e ≤ length vm.stack
      → (r : Result (Value D)) × Yields w base fn slots o known vm (length d.chunk.code) r
        × IsTyped (has_division e) k r
  compile-IsTyped e c d slot locals vm env k fits typed h arithmetic more few small there holds
        room =
      (
        eval w.floats slot locals e,
        compile-Yields w base fn slots o known e c d slot locals vm h arithmetic more few small
            there holds room,
        eval-IsTyped w.floats env slot locals fits e k typed,
      )
