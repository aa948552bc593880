-- ===== src/Gvm/Value.antt =====
-- src/base/gvm/Value.cpp and Value.h: the values of the machine and their arithmetic. `double` is a
-- parameter `D` with its operations; strings are byte strings. Signed integers are unbounded, since
-- their overflow is undefined in the source. An operand whose type no handler takes is a `bad_cast`,
-- thrown by the last handler of `Variant::visit` (include/base/Variant.h).
pub mod Table
use gqlite.Prelude.{
  ℕ, ◌+◌, ◌%◌, ◌^◌, ◌≡◌, refl, Bool, true, false, not, ◌&&◌, ◌||◌, List, ◌++◌, ◌==◌, if◌then◌else◌,
}
use gqlite.Prelude.Int.{ℤ, pos, negsuc, ◌+ℤ◌, ◌-ℤ◌}

-- The arithmetic of `double`: `is_zero` is `x == 0`, `of_ℤ` the conversion of an integer.
pub record Floats (D : Type 0) : Type 0 where
  pub plus : D → D → D
  pub minus : D → D → D
  pub times : D → D → D
  pub over : D → D → D
  pub is_zero : D → Bool
  pub of_ℤ : ℤ → D

-- Function, native and class objects are named by their addresses. `void` is the value that was
-- never set.
pub data Value (D : Type 0) : Type 0 where
  double : D → Value D
  str : List ℕ → Value D
  bool : Bool → Value D
  int : ℤ → Value D
  long : ℤ → Value D
  uint64 : ℕ → Value D
  func : ℕ → Value D
  native : ℕ → Value D
  cls : ℕ → Value D
  void : Value D

-- `runtime_error` stands for `std::runtime_error` and `GRuntimeException`.
pub data Error : Type 0 where
  runtime_error bad_cast : Error

pub data Result {ℓ} (A : Type ℓ) : Type ℓ where
  ok : A → Result A
  err : Error → Result A

infixl 5 ◌>>=◌
abbrev pub ◌>>=◌ {ℓ κ} : {A : Type ℓ} {B : Type κ} → Result A → (A → Result B) → Result B
ok a >>= f = f a
err e >>= f = err e

abbrev pub bit : Bool → ℕ
bit true = 1
bit false = 0

is_zero_ℤ : ℤ → Bool
is_zero_ℤ (pos n) = n == 0
is_zero_ℤ (negsuc n) = false

module _ {D : Type 0} (fl : Floats D) where
  -- The handlers of the second operand, for each type of the first.
  unfoldable pub add : Value D → Value D → Result (Value D)
  add (double lv) (double rv) = ok (double (fl.plus lv rv))
  add (double lv) (str rv) = err runtime_error
  add (double lv) (int rv) = ok (double (fl.plus lv (fl.of_ℤ rv)))
  add (double lv) (bool rv) = err runtime_error
  add (str lv) (double rv) = err runtime_error
  add (str lv) (str rv) = ok (str (lv ++ rv))
  add (str lv) (bool rv) = err runtime_error
  add (str lv) (int rv) = err runtime_error
  add (str lv) (long rv) = err runtime_error
  add (str lv) (uint64 rv) = err runtime_error
  add (int lv) (double rv) = ok (double (fl.plus (fl.of_ℤ lv) rv))
  add (int lv) (int rv) = ok (double (fl.of_ℤ (lv +ℤ rv)))
  add (int lv) (long rv) = ok (double (fl.of_ℤ (lv +ℤ rv)))
  add (bool lv) (double rv) = err runtime_error
  add (bool lv) (str rv) = err runtime_error
  add (bool lv) (bool rv) = ok (bool (lv || rv))
  add (long lv) (double rv) = ok (double (fl.plus (fl.of_ℤ lv) rv))
  add (long lv) (str rv) = err runtime_error
  add (long lv) (bool rv) = ok (double (fl.of_ℤ (lv +ℤ pos (bit rv))))
  add (uint64 lv) (double rv) = ok (double (fl.plus (fl.of_ℤ (pos lv)) rv))
  add (uint64 lv) (str rv) = err runtime_error
  add (uint64 lv) (bool rv) = ok (double (fl.of_ℤ (pos ((lv + bit rv) % 2 ^ 64))))
  add _ _ = err bad_cast

  unfoldable pub subtract : Value D → Value D → Result (Value D)
  subtract (double lv) (double rv) = ok (double (fl.minus lv rv))
  subtract (double lv) (int rv) = ok (double (fl.minus lv (fl.of_ℤ rv)))
  subtract (double lv) (str rv) = err runtime_error
  subtract (double lv) (bool rv) = err runtime_error
  subtract (str lv) (double rv) = err runtime_error
  subtract (str lv) (str rv) = err runtime_error
  subtract (str lv) (bool rv) = err runtime_error
  subtract (int lv) (double rv) = ok (double (fl.minus (fl.of_ℤ lv) rv))
  subtract (int lv) (int rv) = ok (double (fl.of_ℤ (lv -ℤ rv)))
  subtract (bool lv) (double rv) = err runtime_error
  subtract (bool lv) (str rv) = err runtime_error
  subtract (bool lv) (bool rv) = ok (bool (not (bit lv == bit rv)))
  subtract _ _ = err bad_cast

  unfoldable pub multiply : Value D → Value D → Result (Value D)
  multiply (double lv) (double rv) = ok (double (fl.times lv rv))
  multiply (double lv) (int rv) = ok (double (fl.times lv (fl.of_ℤ rv)))
  multiply (double lv) (str rv) = err runtime_error
  multiply (double lv) (bool rv) = err runtime_error
  multiply (str lv) (double rv) = err runtime_error
  multiply (str lv) (str rv) = err runtime_error
  multiply (str lv) (bool rv) = err runtime_error
  multiply (int lv) (double rv) = ok (double (fl.times (fl.of_ℤ lv) rv))
  multiply (int lv) (int rv) = ok (double (fl.times (fl.of_ℤ lv) (fl.of_ℤ rv)))
  multiply (bool lv) (double rv) = err runtime_error
  multiply (bool lv) (str rv) = err runtime_error
  multiply (bool lv) (bool rv) = ok (bool (lv && rv))
  multiply _ _ = err bad_cast

  -- The test of the divider, then the quotient.
  abbrev quotient : Bool → D → D → Result (Value D)
  quotient zero_divider lv rv =
      if zero_divider then err runtime_error else ok (double (fl.over lv rv))

  unfoldable pub divide : Value D → Value D → Result (Value D)
  unfolding is_zero_ℤ
  divide (double lv) (double rv) = quotient (fl.is_zero rv) lv rv
  divide (double lv) (str rv) = err runtime_error
  divide (double lv) (int rv) = quotient (is_zero_ℤ rv) lv (fl.of_ℤ rv)
  divide (double lv) (bool rv) = err runtime_error
  divide (str lv) (double rv) = err runtime_error
  divide (str lv) (str rv) = err runtime_error
  divide (str lv) (bool rv) = err runtime_error
  divide (int lv) (double rv) = quotient (fl.is_zero rv) (fl.of_ℤ lv) rv
  divide (int lv) (int rv) = quotient (is_zero_ℤ rv) (fl.of_ℤ lv) (fl.of_ℤ rv)
  divide (bool lv) (double rv) = err runtime_error
  divide (bool lv) (str rv) = err runtime_error
  divide (bool lv) (bool rv) = err runtime_error
  divide _ _ = err bad_cast
