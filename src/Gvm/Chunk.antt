-- ===== src/Gvm/Chunk.antt =====
-- src/base/gvm/Chunk.cpp, Chunk.h and Object.h: a function's byte code and its constants. The code
-- is the list of the bytes written so far; the rest of its 1024 bytes are zero. `none` stands for an
-- access behind the buffer, which is undefined in the source.
use gqlite.Prelude.{
  ℕ, ◌%◌, ◌≡◌, refl, Option, none, some, List, [], ◌∷◌, ◌++◌, ltb, if◌then◌else◌, length, get_elem?,
}
use gqlite.Gvm.Value.{Value}

abbrev pub max_byte_code : ℕ
max_byte_code = 1024

-- `enum class OpCode`, in its order.
pub data OpCode : Type 0 where
  set_global set_local get_global get_local pop def_global def_local : OpCode
  add subtract multiply divide negate call : OpCode
  if_op else_op constant jump return : OpCode

unfoldable pub code_of : OpCode → ℕ
code_of set_global = 0
code_of set_local = 1
code_of get_global = 2
code_of get_local = 3
code_of pop = 4
code_of def_global = 5
code_of def_local = 6
code_of add = 7
code_of subtract = 8
code_of multiply = 9
code_of divide = 10
code_of negate = 11
code_of call = 12
code_of if_op = 13
code_of else_op = 14
code_of constant = 15
code_of jump = 16
code_of return = 17

abbrev op_codes : List OpCode
op_codes =
    set_global ∷ set_local ∷ get_global ∷ get_local ∷ pop ∷ def_global ∷ def_local ∷ add ∷ subtract
    ∷ multiply ∷ divide ∷ negate ∷ call ∷ if_op ∷ else_op ∷ constant ∷ jump ∷ return ∷ []

-- `(OpCode)byte`: a byte above the last code is no case of any switch.
unfoldable pub op_code : ℕ → Option OpCode
op_code n = get_elem? op_codes n

pub op_code-code_of : (op : OpCode) → op_code (code_of op) ≡ some op
unfolding op_code code_of
op_code-code_of set_global = refl
op_code-code_of _ = refl

pub record Chunk (D : Type 0) : Type 0 where
  pub values : List (Value D)
  pub code : List ℕ

module _ {D : Type 0} where
  abbrev pub empty_chunk : Chunk D
  empty_chunk = record { values = []; code = [] }

  -- `Chunk::push`; the argument is a `uint8_t`.
  unfoldable pub push : Chunk D → ℕ → Option (Chunk D)
  push c byte =
      if ltb (length c.code) max_byte_code
      then some (record c { code = c.code ++ (byte % 256) ∷ [] })
      else none

  -- `Chunk::at`, and the machine's reads through a pointer into the code.
  unfoldable pub at : Chunk D → ℕ → Option ℕ
  at c i = elim (get_elem? c.code i) [
    | some byte ↦ some byte
    | none ↦ if ltb i max_byte_code then some 0 else none
  ]

  unfoldable pub size : Chunk D → ℕ
  size c = length c.code

  -- `addConstant`: the chunk and the index of the new constant.
  unfoldable pub add_constant : Chunk D → Value D → Chunk D × ℕ
  add_constant c value = (record c { values = c.values ++ value ∷ [] }, length c.values)

-- `FunctionObj`.
pub record FunctionObj (D : Type 0) : Type 0 where
  pub arity : ℕ
  pub chunk : Chunk D
  pub name : List ℕ
