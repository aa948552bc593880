-- ===== src/Gvm/Run.antt =====
-- src/base/gvm/GVM.cpp: `run` and `interpret`. `frame` is a reference bound once, before the loop,
-- to the slot `base` of the frame array: `frame = _frame[_frameSize - 1]` copies into that slot.
use gqlite.Prelude.{
  ℕ, zero, suc, ◌+◌, ◌-◌, Option, none, some, List, leb, ltb, ◌==◌, if◌then◌else◌, length,
  get_elem?, set,
}
use gqlite.Prelude.Eq.{bytes_eq}
use gqlite.Prelude.Maps.{lookup, insert}
use gqlite.Gvm.Value
use gqlite.Gvm.Value.{Value, func, Error, runtime_error, bad_cast}
use gqlite.Gvm.Chunk.{
  at, OpCode, op_code, set_global, set_local, get_global, get_local, pop, def_global, add, subtract,
  multiply, divide, call, constant, jump, return,
}
use gqlite.Gvm.Machine.{
  Vm, Outcome, next, returned, thrown, fault, Code, success, fail, runtime_failure, World, reading,
  push, call_value, binary, as_string,
}

module _ {D : Type 0} (w : World D) (base : ℕ) where
  -- `READ_BYTE()`: the byte, and the machine behind it.
  unfoldable pub read_byte : Vm D → Option (ℕ × Vm D)
  unfolding at
  read_byte vm = elim (get_elem? vm.frames base) [
    | none ↦ none
    | some f ↦ elim (w.functions f.fn) [
      | none ↦ none
      | some o ↦ elim (at o.chunk f.ip) [
        | none ↦ none
        | some byte ↦
            some (byte, record vm { frames = set vm.frames base (record f { ip = f.ip + 1 }) })
      ]
    ]
  ]

  -- `READ_VALUE()`.
  unfoldable pub read_value : Vm D → Option (Value D × Vm D)
  unfolding read_byte
  read_value vm = elim (read_byte vm) [
    | none ↦ none
    | some (i, vm') ↦ elim (get_elem? vm.frames base) [
      | none ↦ none
      | some f ↦ elim (w.functions f.fn) [
        | none ↦ none
        | some o ↦ elim (get_elem? o.chunk.values i) [ none ↦ none | some v ↦ some (v, vm') ]
      ]
    ]
  ]

  -- `OP_RETURN`: with frames left the stack is cut at this frame's slots, the result goes on it, and
  -- the frame below is copied into the slot that the loop reads.
  unfoldable pub execute_return : Vm D → Outcome D
  unfolding push
  execute_return vm =
      if leb 1 vm.top
      then (reading (get_elem? vm.stack (vm.top - 1)) λ result.
          let left = vm.frame_size - 1 in
          let popped = record vm { top = vm.top - 1; frame_size = left } in
          if left == 0
          then returned success popped
          else (reading (get_elem? vm.frames base) λ frame.
              elim (push (record popped { top = frame.slots }) result) [
                | next vm' ↦
                    reading (get_elem? vm'.frames (left - 1))
                      λ below. next (record vm' { frames = set vm'.frames base below })
                | other ↦ other
              ]))
      else fault

  -- The globals are written from `*_stackTop`, the slot above the top of the stack.
  unfoldable pub execute_global : OpCode → Vm D → List ℕ → Outcome D
  unfolding push
  execute_global def_global vm name =
      reading (get_elem? vm.stack vm.top)
        λ v. next (record vm { globals = insert name v vm.globals })
  execute_global set_global vm name = elim (lookup name vm.globals) [
    | none ↦ thrown runtime_error vm
    | some old ↦
        reading (get_elem? vm.stack vm.top)
          λ v. next (record vm { globals = insert name v vm.globals })
  ]
  execute_global _ vm name = elim (lookup name vm.globals) [
    | none ↦ thrown runtime_error vm
    | some v ↦ push vm v
  ]

  unfoldable pub execute_local : OpCode → Vm D → ℕ → Outcome D
  unfolding push
  execute_local set_local vm slot =
      if leb 1 vm.top
      then (reading (get_elem? vm.stack (vm.top - 1)) λ v.
          reading (get_elem? vm.frames base) λ frame.
            if ltb (frame.slots + slot) (length vm.stack)
            then next (record vm { stack = set vm.stack (frame.slots + slot) v })
            else fault)
      else fault
  execute_local _ vm slot =
      reading (get_elem? vm.frames base)
        λ frame. reading (get_elem? vm.stack (frame.slots + slot)) λ v. push vm v

  -- The operand of the global instructions.
  abbrev named : OpCode → Vm D → Outcome D
  named op vm =
      reading (read_value vm) λ p. reading (as_string p.0) λ name. execute_global op p.1 name

  unfoldable pub execute_call : Vm D → Outcome D
  unfolding read_byte call_value
  execute_call vm = reading (read_byte vm) λ p.
      if leb (p.0 + 1) vm.top
      then (reading (get_elem? vm.stack (vm.top - p.0 - 1)) λ callee. call_value w p.1 callee p.0)
      else fault

  -- The cases of the `switch`, after the instruction byte was read.
  unfoldable pub execute : OpCode → Vm D → Outcome D
  unfolding execute_call binary read_value push execute_return execute_global execute_local
  execute call vm = execute_call vm
  execute add vm = binary vm (Value.add w.floats)
  execute subtract vm = binary vm (Value.subtract w.floats)
  execute multiply vm = binary vm (Value.multiply w.floats)
  execute divide vm = binary vm (Value.divide w.floats)
  execute constant vm = reading (read_value vm) λ p. push p.1 p.0
  execute return vm = execute_return vm
  execute def_global vm = named def_global vm
  execute set_global vm = named set_global vm
  execute get_global vm = named get_global vm
  execute set_local vm = reading (read_byte vm) λ p. execute_local set_local p.1 p.0
  execute get_local vm = reading (read_byte vm) λ p. execute_local get_local p.1 p.0
  execute pop vm = if leb 1 vm.top then next (record vm { top = vm.top - 1 }) else fault
  execute jump vm = next vm
  execute _ vm = returned fail vm

  -- One round of the loop.
  unfoldable pub step : Vm D → Outcome D
  unfolding read_byte execute op_code
  step vm =
      reading (read_byte vm)
        λ p. elim (op_code p.0) [ none ↦ returned fail p.1 | some op ↦ execute op p.1 ]

  -- The loop, on fuel: `none` means that the fuel ran out.
  unfoldable pub run : ℕ → Vm D → Option (Outcome D)
  run zero vm = none
  run (suc fuel) vm = elim (step vm) [ next vm' ↦ run fuel vm' | other ↦ some other ]

-- What a caller of `interpret` sees: a code, an exception that leaves it, undefined behaviour, or
-- no answer within the fuel.
pub data Interpreted (D : Type 0) : Type 0 where
  answered : Code → Vm D → Interpreted D
  escaped : Error → Vm D → Interpreted D
  undefined unfinished : Interpreted D

module _ {D : Type 0} where
  -- The `try` block and its handlers.
  unfoldable pub handled : Option (Outcome D) → Interpreted D
  handled none = unfinished
  handled (some (next vm)) = unfinished
  handled (some (returned code vm)) = answered code vm
  handled (some (thrown runtime_error vm)) = answered runtime_failure (record vm { top = 0 })
  handled (some (thrown bad_cast vm)) = answered fail (record vm { top = 0 })
  handled (some fault) = undefined

  -- `callValue(entry, 0)` stands before the `try` block. A null entry is `none`.
  unfoldable pub interpret : World D → ℕ → Vm D → Option ℕ → Interpreted D
  unfolding push call_value handled run
  interpret w fuel vm none = answered fail vm
  interpret w fuel vm (some entry) = elim (push (record vm { top = 0 }) (func entry)) [
    | next vm₁ ↦ elim (call_value w vm₁ (func entry) 0) [
      | next vm₂ ↦ handled (run w (vm₂.frame_size - 1) fuel vm₂)
      | thrown e vm₂ ↦ escaped e vm₂
      | _ ↦ undefined
    ]
    | _ ↦ undefined
  ]
