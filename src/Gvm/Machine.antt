-- ===== src/Gvm/Machine.antt =====
-- src/base/gvm/GVM.cpp and GVM.h: the machine. Its stack is an array with a top pointer, and popped
-- values stay in it. A call frame's instruction and slot pointers are offsets; functions and native
-- functions are reached through their addresses: `functions` is the heap of function objects,
-- `natives` what the native functions answer, and `is_empty` is `Variant::empty`, which reads an
-- index that the default constructor does not set (include/base/Variant.h). `fault` stands for
-- undefined behaviour: an access out of an array, or a string read out of another value.
use gqlite.Prelude.{
  ℕ, ◌+◌, ◌-◌, Bool, not, Option, none, some, List, leb, ltb, ◌==◌, if◌then◌else◌, length,
  get_elem?, set, take, drop,
}
use gqlite.Prelude.Eq.{bytes_eq}
use gqlite.Gvm.Value.{
  Floats, Value, str, func, native, Error, runtime_error, bad_cast, Result, ok, err,
}
use gqlite.Gvm.Chunk.{FunctionObj}

abbrev pub max_frame : ℕ
max_frame = 64

abbrev pub max_stack : ℕ
max_stack = 4096

pub record CallFrame : Type 0 where
  pub ip : ℕ
  pub fn : ℕ
  pub slots : ℕ

pub record Vm (D : Type 0) : Type 0 where
  pub stack : List (Value D)
  pub top : ℕ
  pub frames : List CallFrame
  pub frame_size : ℕ
  pub globals : List (List ℕ × Value D)

-- The error codes that `interpret` returns (include/gqlite.h).
pub data Code : Type 0 where
  success fail runtime_failure : Code

-- One round of the loop: it goes on, returns, throws, or is undefined.
pub data Outcome (D : Type 0) : Type 0 where
  next : Vm D → Outcome D
  returned : Code → Vm D → Outcome D
  thrown : Error → Vm D → Outcome D
  fault : Outcome D

-- What the machine finds outside itself.
pub record World (D : Type 0) : Type 0 where
  pub floats : Floats D
  pub functions : ℕ → Option (FunctionObj D)
  pub natives : ℕ → List (Value D) → Value D
  pub is_empty : Value D → Bool

module _ {D : Type 0} where
  -- Reading an array, for a continuation.
  abbrev pub reading {ℓ} : {A : Type ℓ} → Option A → (A → Outcome D) → Outcome D
  reading none k = fault
  reading (some a) k = k a

  -- `*p++ = value` at the top of the stack.
  unfoldable pub push : Vm D → Value D → Outcome D
  push vm value =
      if ltb vm.top (length vm.stack)
      then next (record vm { stack = set vm.stack vm.top value; top = vm.top + 1 })
      else fault

  -- `BINARY_OP`: the value below the top is the left operand, and takes the result.
  unfoldable pub binary : Vm D → (Value D → Value D → Result (Value D)) → Outcome D
  binary vm op =
      if leb 2 vm.top
      then (reading (get_elem? vm.stack (vm.top - 1)) λ popped.
          reading (get_elem? vm.stack (vm.top - 2)) λ below. elim (op below popped) [
            | ok v ↦ next (record vm { stack = set vm.stack (vm.top - 2) v; top = vm.top - 1 })
            | err e ↦ thrown e (record vm { top = vm.top - 1 })
          ])
      else fault

  -- `READ_STRING()` on a constant: any other value is read as if it were a string.
  abbrev pub as_string : Value D → Option (List ℕ)
  as_string (str s) = some s
  as_string _ = none

module _ {D : Type 0} (w : World D) where
  -- `GVM::call`: a new frame, whose slots begin at the callee. The frame that runs is not changed.
  unfoldable pub call_function : Vm D → ℕ → FunctionObj D → ℕ → Outcome D
  call_function vm fn f argc =
      if not (argc == f.arity)
      then thrown runtime_error vm
      else if vm.frame_size == max_frame
      then thrown runtime_error vm
      else if leb (argc + 1) vm.top
      then next (record vm {
        frames =
            set vm.frames vm.frame_size (record { ip = 0; fn = fn; slots = vm.top - argc - 1 });
        frame_size = vm.frame_size + 1;
      })
      else fault

  -- The native branch of `callValue`: the arguments and the callee leave the stack, and an answer
  -- that is not empty goes on it.
  unfoldable pub call_native : Vm D → ℕ → ℕ → Outcome D
  unfolding push
  call_native vm id argc =
      if leb (argc + 1) vm.top
      then (let answer = w.natives id (take argc (drop (vm.top - argc) vm.stack)) in
          let popped = record vm { top = vm.top - (argc + 1) } in
          if w.is_empty answer then next popped else push popped answer)
      else fault

  unfoldable pub call_value : Vm D → Value D → ℕ → Outcome D
  unfolding call_function call_native
  call_value vm (func fn) argc = reading (w.functions fn) λ f. call_function vm fn f argc
  call_value vm (native id) argc = call_native vm id argc
  call_value vm _ argc = thrown bad_cast vm
