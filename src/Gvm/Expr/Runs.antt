-- ===== src/Gvm/Expr/Runs.antt =====
-- src/base/gvm/GVM.cpp: the machine on the code of an expression.
use gqlite.Prelude.{
  ℕ, zero, suc, ◌+◌, ◌-◌, ◌<◌, ◌≤◌, ◌≡◌, refl, ◌∙◌, some, List, [], ◌∷◌, length, get_elem?, set,
  get_elem?-set_self, arith,
}
use gqlite.Gvm.Value.{Value, Error, Result, ok, err}
use gqlite.Gvm.Chunk.{
  FunctionObj, OpCode, op_code, op_code-code_of, code_of, at, constant, get_local,
}
use gqlite.Gvm.Machine.{CallFrame, Vm, next, thrown, World, push, binary}
use gqlite.Gvm.Run.{read_byte, read_value, execute, execute_local, step}

pub get_elem?-length :
    {A : Type 0} (xs : List A) (i : ℕ) (a : A) → get_elem? xs i ≡ some a → i < length xs
get_elem?-length [] i a h = ground arith
get_elem?-length (x ∷ xs) zero a h = omega arith
get_elem?-length (x ∷ xs) (suc i) a h = omega (arith, get_elem?-length xs i a h)

module _ {D : Type 0} where
  -- The machine after a value was pushed, and after an operation on two.
  abbrev pub pushed : Vm D → Value D → Vm D
  pushed vm v = record vm { stack = set vm.stack vm.top v; top = vm.top + 1 }

  push_lem : (vm : Vm D) (v : Value D) → vm.top < length vm.stack → push vm v ≡ next (pushed vm v)
  unfolding push
  push_lem vm v room = ground arith

  -- The machine after an operation on the two values on top.
  abbrev pub reduced : Vm D → Value D → Vm D
  reduced vm v = record vm { stack = set vm.stack (vm.top - 2) v; top = vm.top - 1 }

  pub binary_ok :
      (vm : Vm D) (f : Value D → Value D → Result (Value D)) (a b v : Value D)
      → 2 ≤ vm.top
      → get_elem? vm.stack (vm.top - 2) ≡ some a
      → get_elem? vm.stack (vm.top - 1) ≡ some b
      → f a b ≡ ok v
      → binary vm f ≡ next (reduced vm v)
  unfolding binary
  binary_ok vm f a b v two left right h = ground (arith, two, left, right, h)

  pub binary_err :
      (vm : Vm D) (f : Value D → Value D → Result (Value D)) (a b : Value D) (x : Error)
      → 2 ≤ vm.top
      → get_elem? vm.stack (vm.top - 2) ≡ some a
      → get_elem? vm.stack (vm.top - 1) ≡ some b
      → f a b ≡ err x
      → binary vm f ≡ thrown x (record vm { top = vm.top - 1 })
  unfolding binary
  binary_err vm f a b x two left right h = ground (arith, two, left, right, h)

abbrev pub frame : ℕ → ℕ → ℕ → CallFrame
frame fn slots ip = record { ip = ip; fn = fn; slots = slots }

module _ {D : Type 0} (base fn slots : ℕ) where
  -- The running frame is about to read the byte at `ip`.
  abbrev pub At : Vm D → ℕ → Type 0
  At vm ip = get_elem? vm.frames base ≡ some (frame fn slots ip)

  abbrev pub advanced : Vm D → ℕ → Vm D
  advanced vm ip = record vm { frames = set vm.frames base (frame fn slots ip) }

  pub advanced-At : (vm : Vm D) (ip next_ip : ℕ) → At vm ip → At (advanced vm next_ip) next_ip
  advanced-At vm ip next_ip h =
      get_elem?-set_self vm.frames base (frame fn slots next_ip)
        (get_elem?-length vm.frames base (frame fn slots ip) h)

module _ {D : Type 0} (w : World D) (base fn slots : ℕ) (o : FunctionObj D)
    (known : w.functions fn ≡ some o) where
  pub read_byte-At :
      (vm : Vm D) (ip byte : ℕ)
      → At base fn slots vm ip
      → at o.chunk ip ≡ some byte
      → read_byte w base vm ≡ some (byte, advanced base fn slots vm (ip + 1))
  unfolding read_byte
  read_byte-At vm ip byte h code = rw (h, known, code, read_byte) refl

  pub step-At :
      (vm : Vm D) (ip byte : ℕ) (op : OpCode)
      → At base fn slots vm ip
      → at o.chunk ip ≡ some byte
      → op_code byte ≡ some op
      → step w base vm ≡ execute w base op (advanced base fn slots vm (ip + 1))
  unfolding step
  step-At vm ip byte op h code same = rw (read_byte-At vm ip byte h code, same) refl

  pub read_value-At :
      (vm : Vm D) (ip byte : ℕ) (v : Value D)
      → At base fn slots vm ip
      → at o.chunk ip ≡ some byte
      → get_elem? o.chunk.values byte ≡ some v
      → read_value w base vm ≡ some (v, advanced base fn slots vm (ip + 1))
  unfolding read_value
  read_value-At vm ip byte v h code value =
      rw (read_byte-At vm ip byte h code, h, known, value, read_value) refl

  pub step-constant :
      (vm : Vm D) (ip byte : ℕ) (v : Value D)
      → At base fn slots vm ip
      → at o.chunk ip ≡ some (code_of constant)
      → at o.chunk (ip + 1) ≡ some byte
      → get_elem? o.chunk.values byte ≡ some v
      → vm.top < length vm.stack
      → step w base vm
        ≡ next (pushed (advanced base fn slots (advanced base fn slots vm (ip + 1)) (ip + 1 + 1)) v)
  unfolding execute
  step-constant vm ip byte v h code operand value room =
      step-At vm ip (code_of constant) constant h code (op_code-code_of constant)
      ∙ rw
          (
            read_value-At (advanced base fn slots vm (ip + 1)) (ip + 1) byte v
                (advanced-At base fn slots vm ip (ip + 1) h) operand value,
            execute,
          )
          (push_lem (advanced base fn slots (advanced base fn slots vm (ip + 1)) (ip + 1 + 1)) v
            room)

  pub step-get_local :
      (vm : Vm D) (ip slot : ℕ) (v : Value D)
      → At base fn slots vm ip
      → at o.chunk ip ≡ some (code_of get_local)
      → at o.chunk (ip + 1) ≡ some slot
      → get_elem? vm.stack (slots + slot) ≡ some v
      → vm.top < length vm.stack
      → step w base vm
        ≡ next (pushed (advanced base fn slots (advanced base fn slots vm (ip + 1)) (ip + 1 + 1)) v)
  unfolding execute execute_local
  step-get_local vm ip slot v h code operand value room =
      step-At vm ip (code_of get_local) get_local h code (op_code-code_of get_local)
      ∙ rw
          (
            read_byte-At (advanced base fn slots vm (ip + 1)) (ip + 1) slot
                (advanced-At base fn slots vm ip (ip + 1) h) operand,
            execute,
          )
          (rw
            (
              advanced-At base fn slots (advanced base fn slots vm (ip + 1)) (ip + 1) (ip + 1 + 1)
                  (advanced-At base fn slots vm ip (ip + 1) h),
              value,
              execute_local,
            )
            (push_lem (advanced base fn slots (advanced base fn slots vm (ip + 1)) (ip + 1 + 1)) v
              room))
