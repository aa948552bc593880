-- ===== src/Gvm/Value/Table.antt =====
-- Which operands the arithmetic of values takes, and what it gives.
use gqlite.Prelude.{◌≡◌, refl, Bool, false, Option, none, some, ◌==◌, arith, if◌then◌else◌}
use gqlite.Prelude.Int.{pos, negsuc}
use gqlite.Gvm.Value.{Floats, Value, double, str, bool, int, ok, err, runtime_error, divide}

module _ {D : Type 0} (fl : Floats D) where
  -- The operands that division and multiplication take as numbers.
  abbrev pub as_number : Value D → Option D
  as_number (double x) = some x
  as_number (int n) = some (fl.of_ℤ n)
  as_number _ = none

  abbrev pub is_zero_number : Value D → Bool
  is_zero_number (double x) = fl.is_zero x
  is_zero_number (int (pos n)) = n == 0
  is_zero_number _ = false

  abbrev pub Divides : Value D → Value D → Value D → Type 0
  Divides a b v =
      (x : D) × (y : D) × (as_number a ≡ some x)
      × (as_number b ≡ some y)
      × (is_zero_number b ≡ false)
      × (v ≡ double (fl.over x y))

  -- Division succeeds only on two operands of type `double` or `int` with a divider that is not
  -- zero, and gives the quotient as a `double`.
  pub divide_ok : (a b v : Value D) → divide fl a b ≡ ok v → Divides a b v
  unfolding divide
  divide_ok (double a) (double b) v h = (a, b, refl, refl, ground arith, ground arith)
  divide_ok (double a) (int (pos n)) v h =
      (a, fl.of_ℤ (pos n), refl, refl, ground arith, ground arith)
  divide_ok (double a) (int (negsuc n)) v h =
      (a, fl.of_ℤ (negsuc n), refl, refl, ground arith, ground arith)
  divide_ok (int a) (double b) v h = (fl.of_ℤ a, b, refl, refl, ground arith, ground arith)
  divide_ok (int a) (int (pos n)) v h =
      (fl.of_ℤ a, fl.of_ℤ (pos n), refl, refl, ground arith, ground arith)
  divide_ok (int a) (int (negsuc n)) v h =
      (fl.of_ℤ a, fl.of_ℤ (negsuc n), refl, refl, ground arith, ground arith)
  divide_ok (str a) (double b) v h = cc
  divide_ok (bool a) (double b) v h = cc
  divide_ok _ _ v h = cc

  -- On two operands of type `double` or `int`, division by zero is a runtime error, and any other
  -- division gives the quotient as a `double`.
  pub divide_numbers :
      (a b : Value D) (x y : D)
      → as_number a ≡ some x
      → as_number b ≡ some y
      → divide fl a b ≡ (if is_zero_number b then err runtime_error else ok (double (fl.over x y)))
  unfolding divide
  divide_numbers (double a) (double b) x y h k = ground arith
  divide_numbers (double a) (int (pos n)) x y h k = ground arith
  divide_numbers (double a) (int (negsuc n)) x y h k = ground arith
  divide_numbers (int a) (double b) x y h k = ground arith
  divide_numbers (int a) (int (pos n)) x y h k = ground arith
  divide_numbers (int a) (int (negsuc n)) x y h k = ground arith
  divide_numbers _ _ x y h k = cc
