-- ===== src/Gvm/Expr/Yields.antt =====
-- The steps of the machine (src/base/gvm/GVM.cpp): states that are reached, and what pushing a value
-- or an operation on two values yields.
use gqlite.Prelude.{
  ℕ, zero, suc, ◌+◌, ◌-◌, ◌%◌, ◌<◌, ◌≤◌, ◌≡◌, refl, ◌∙◌, some, length, length-set, get_elem?,
  get_elem?-set_self, get_elem?-set_ne, arith,
}
use gqlite.Gvm.Value.{Value, Result, ok, err, ◌>>=◌}
use gqlite.Gvm.Chunk
use gqlite.Gvm.Expr
use gqlite.Gvm.Chunk.{
  Chunk, FunctionObj, OpCode, op_code, op_code-code_of, code_of, at, constant, get_local,
}
use gqlite.Gvm.Machine
use gqlite.Gvm.Machine.{CallFrame, Vm, Outcome, next, thrown, World}
use gqlite.Gvm.Run.{execute, step}
use gqlite.Gvm.Expr.{Operator, Node, literal, variable, binary, compile, operator_code}
use gqlite.Gvm.Expr.Meaning.{apply, IsArithmeticOp}
use gqlite.Gvm.Expr.Runs.{
  get_elem?-length, At, advanced, advanced-At, pushed, reduced, step-At, binary_ok, binary_err,
}

module _ {D : Type 0} (w : World D) (base : ℕ) where
  -- The machine goes from one state to another in `n` rounds of its loop.
  unfoldable pub Steps : ℕ → Vm D → Vm D → Type 0
  Steps zero vm vm' = vm ≡ vm'
  Steps (suc n) vm vm' = (mid : Vm D) × (step w base vm ≡ next mid) × Steps n mid vm'

  unfoldable pub Reaches : Vm D → Vm D → Type 0
  Reaches vm vm' = (n : ℕ) × Steps n vm vm'

  pub Reaches-refl : (vm : Vm D) → Reaches vm vm
  unfolding Reaches Steps
  Reaches-refl vm = (0, refl)

  Steps-trans : (n : ℕ) (a b c : Vm D) → Steps n a b → Reaches b c → Reaches a c
  unfolding Reaches Steps
  Steps-trans zero a b c h k = rw h k
  Steps-trans (suc n) a b c (mid, first, later) k =
      let (m, all) = Steps-trans n mid b c later k in (suc m, (mid, first, all))

  Reaches-trans : (a b c : Vm D) → Reaches a b → Reaches b c → Reaches a c
  unfolding Reaches
  Reaches-trans a b c (n, h) k = Steps-trans n a b c h k

  Reaches-step : (a b : Vm D) → step w base a ≡ next b → Reaches a b
  unfolding Reaches Steps
  Reaches-step a b h = (1, (b, h, refl))

module _ {D : Type 0} (w : World D) (base fn slots : ℕ) (o : FunctionObj D)
    (known : w.functions fn ≡ some o) where
  -- A value was pushed, and the frame reads on at `ip`; nothing below it changed.
  pub record Computes (vm vm' : Vm D) (ip : ℕ) (v : Value D) : Type 0 where
    pub at : At base fn slots vm' ip
    pub top : vm'.top ≡ vm.top + 1
    pub value : get_elem? vm'.stack vm.top ≡ some v
    pub below : (i : ℕ) → i < vm.top → get_elem? vm'.stack i ≡ get_elem? vm.stack i
    pub size : length vm'.stack ≡ length vm.stack
    pub frame_size : vm'.frame_size ≡ vm.frame_size

  -- The machine comes to a state that has the value, or throws the error.
  unfoldable pub Yields : Vm D → ℕ → Result (Value D) → Type 0
  Yields vm ip (ok v) = (vm' : Vm D) × Reaches w base vm vm' × Computes vm vm' ip v
  Yields vm ip (err x) =
      (last thrower : Vm D) × Reaches w base vm thrower
      × (step w base thrower ≡ thrown x last)
      × (last.frame_size ≡ vm.frame_size)

  -- The local variables stand in the slots of the frame.
  unfoldable pub Holds : Vm D → (ℕ → Value D) → ℕ → Type 0
  Holds vm locals count =
      (slots + count ≤ vm.top)
      × ((i : ℕ) → i < count → get_elem? vm.stack (slots + i) ≡ some (locals i))

  pub Yields-then :
      (start vm : Vm D) (ip end : ℕ) (r : Result (Value D)) (f : Value D → Result (Value D))
      → Reaches w base start vm
      → vm.frame_size ≡ start.frame_size
      → Yields vm ip r
      → ((a : Value D) (vm' : Vm D)
          → Reaches w base start vm'
          → Computes vm vm' ip a
          → Yields start end (f a))
      → Yields start end (r >>= f)
  unfolding Yields
  Yields-then start vm ip end (ok v) f reach size (vm', more, computes) k =
      k v vm' (Reaches-trans w base start vm vm' reach more) computes
  Yields-then start vm ip end (err x) f reach size (last, thrower, more, throws, same) k =
      (last, thrower, Reaches-trans w base start vm thrower reach more, throws, same ∙ size)

  pub push-Yields :
      (vm : Vm D) (ip : ℕ) (v : Value D)
      → At base fn slots vm ip
      → vm.top < length vm.stack
      → step w base vm
        ≡ next (pushed (advanced base fn slots (advanced base fn slots vm (ip + 1)) (ip + 1 + 1)) v)
      → Yields vm (ip + 1 + 1) (ok v)
  unfolding Yields
  push-Yields vm ip v h room steps =
      let there = advanced base fn slots (advanced base fn slots vm (ip + 1)) (ip + 1 + 1) in
      (
        pushed there v,
        Reaches-step w base vm (pushed there v) steps,
        record {
          at =
              advanced-At base fn slots (advanced base fn slots vm (ip + 1)) (ip + 1) (ip + 1 + 1)
                (advanced-At base fn slots vm ip (ip + 1) h);
          top = refl;
          value = get_elem?-set_self vm.stack vm.top v room;
          below = (λ i lt. get_elem?-set_ne vm.stack vm.top i v (λ e. omega (arith, e, lt)));
          size = length-set vm.stack vm.top v;
          frame_size = refl;
        },
      )

  step-operator :
      (vm : Vm D) (ip : ℕ) (op : Operator)
      → IsArithmeticOp op
      → At base fn slots vm ip
      → at o.chunk ip ≡ some (operator_code op % 256)
      → step w base vm ≡ Machine.binary (advanced base fn slots vm (ip + 1)) (apply w.floats op)
  unfolding execute apply operator_code op_code IsArithmeticOp
  step-operator vm ip Expr.add _ h code =
      step-At w base fn slots o known vm ip 7 Chunk.add h code refl
  step-operator vm ip Expr.subtract _ h code =
      step-At w base fn slots o known vm ip 8 Chunk.subtract h code refl
  step-operator vm ip Expr.multiply _ h code =
      step-At w base fn slots o known vm ip 9 Chunk.multiply h code refl
  step-operator vm ip Expr.divide _ h code =
      step-At w base fn slots o known vm ip 10 Chunk.divide h code refl
  step-operator vm ip _ none_of h code = absurd none_of

  -- The result of an operation, at the byte behind its operands.
  pub operation-Yields :
      (start vm : Vm D) (ip : ℕ) (op : Operator) (a b : Value D)
      → Reaches w base start vm
      → IsArithmeticOp op
      → At base fn slots vm ip
      → at o.chunk ip ≡ some (operator_code op % 256)
      → vm.top ≡ start.top + 2
      → get_elem? vm.stack start.top ≡ some a
      → get_elem? vm.stack (start.top + 1) ≡ some b
      → ((i : ℕ) → i < start.top → get_elem? vm.stack i ≡ get_elem? start.stack i)
      → length vm.stack ≡ length start.stack
      → vm.frame_size ≡ start.frame_size
      → Yields start (ip + 1) (apply w.floats op a b)
  unfolding Yields
  operation-Yields start vm ip op a b reach arithmetic h code tops left right below size frames =
      let vm' = advanced base fn slots vm (ip + 1) in
      let lower : vm.top - 2 ≡ start.top = omega arith in
      let upper : vm.top - 1 ≡ start.top + 1 = omega arith in
      let steps = step-operator vm ip op arithmetic h code in
      elim (apply w.floats op a b) as (λ r. apply w.floats op a b ≡ r → Yields start (ip + 1) r) [
        | ok v ↦ λ e.
            let next_step =
              steps
              ∙ binary_ok vm' (apply w.floats op) a b v (omega arith) (rw lower left)
                  (rw upper right) e in
            (
              reduced vm' v,
              Reaches-trans w base start vm (reduced vm' v) reach
                  (Reaches-step w base vm (reduced vm' v) next_step),
              record {
                at = advanced-At base fn slots vm ip (ip + 1) h;
                top = upper;
                value = rw lower (
                    get_elem?-set_self vm.stack start.top v
                      (get_elem?-length vm.stack start.top a left));
                below = (λ i lt.
                    get_elem?-set_ne vm.stack (vm.top - 2) i v (λ same. omega (arith, same, lt))
                    ∙ below i lt);
                size = length-set vm.stack (vm.top - 2) v ∙ size;
                frame_size = frames;
              },
            )
        | err x ↦ λ e. (
          record vm' { top = vm'.top - 1 },
          vm,
          reach,
          steps
              ∙ binary_err vm' (apply w.floats op) a b x (omega arith) (rw lower left)
                  (rw upper right) e,
          frames,
        )
      ]
        refl
