-- ===== src/Gvm/Expr/Correct.antt =====
-- src/base/lang/visitor/VariantVisitor.cpp and src/base/gvm/GVM.cpp: the compiled code of an
-- expression, run by the machine.
use gqlite.Prelude.{
  ℕ, ◌+◌, ◌%◌, ◌<◌, ◌≤◌, ◌≡◌, refl, ap, ◌∙◌, some, List, [], ◌∷◌, ◌++◌, append_assoc, length,
  length-append, get_elem?, get_elem?-append_at, arith,
}
use gqlite.Gvm.Value.{Value, ok}
use gqlite.Gvm.Chunk.{Chunk, FunctionObj, code_of, at, constant, get_local}
use gqlite.Gvm.Compiler.{Compiler, done, resolve_local, emit_two, emit_variant, named_variant}
use gqlite.Gvm.Compiler.Resolve.{resolve_local_lem, Innermost}
use gqlite.Gvm.Machine.{Vm, World}
use gqlite.Gvm.Expr.{Node, literal, variable, binary, compile, operator_code}
use gqlite.Gvm.Expr.Meaning.{eval, IsArithmetic, leaves}
use gqlite.Gvm.Expr.Grows.{
  Extends, Extends-trans, emitted, emitted-Extends, emit-inv, emit_two-inv, with_constant,
  compile_literal-inv, compile-Grows, compile-binary-inv, IsArithmetic-Grows, leaves_pos,
}
use gqlite.Gvm.Expr.Runs.{get_elem?-length, At, step-constant, step-get_local}
use gqlite.Gvm.Expr.Yields.{
  Reaches-refl, Computes, Yields, Holds, Yields-then, push-Yields, operation-Yields,
}

at-code :
    {D : Type 0} (o : Chunk D) (i byte : ℕ) → get_elem? o.code i ≡ some byte → at o i ≡ some byte
unfolding at
at-code o i byte h = rw (h, at) refl

-- The byte that was emitted last is found in every longer chunk.
at-emitted :
    {D : Type 0} (c : Compiler D) (byte : ℕ) (o : Chunk D)
    → Extends (emitted c byte).chunk o
    → at o (length c.chunk.code) ≡ some (byte % 256)
at-emitted c byte o more = at-code o (length c.chunk.code) (byte % 256) (
    ap (λ (xs : List ℕ). get_elem? xs (length c.chunk.code))
      (more.code ∙ append_assoc c.chunk.code ((byte % 256) ∷ []) more.more_code)
    ∙ get_elem?-append_at c.chunk.code more.more_code (byte % 256))

module _ {D : Type 0} (w : World D) (base fn slots : ℕ) (o : FunctionObj D)
    (known : w.functions fn ≡ some o) where
  length_two :
      (c : Compiler D) (a b : ℕ)
      → length (emitted (emitted c a) b).chunk.code ≡ length c.chunk.code + 1 + 1
  length_two c a b = omega (
    arith,
    length-append (c.chunk.code ++ (a % 256) ∷ []) ((b % 256) ∷ []),
    length-append c.chunk.code ((a % 256) ∷ []),
  )

  two_bytes :
      (c : Compiler D) (a b : ℕ)
      → Extends (emitted (emitted c a) b).chunk o.chunk
      → (at o.chunk (length c.chunk.code) ≡ some (a % 256))
        × (at o.chunk (length c.chunk.code + 1) ≡ some (b % 256))
  two_bytes c a b more =
      let first =
        Extends-trans (emitted c a).chunk (emitted (emitted c a) b).chunk o.chunk
          (emitted-Extends (emitted c a) b) more in
      (
        at-emitted c a o.chunk first,
        rw⁻¹ (length-append c.chunk.code ((a % 256) ∷ []))
            (at-emitted (emitted c a) b o.chunk more),
      )

  literal-Yields :
      (c : Compiler D) (v : Value D) (vm : Vm D)
      → Extends
          (emitted (emitted (with_constant c v) (code_of constant)) (length c.chunk.values)).chunk
          o.chunk
      → length o.chunk.values ≤ 256
      → At base fn slots vm (length c.chunk.code)
      → vm.top < length vm.stack
      → Yields w base fn slots o known vm (length c.chunk.code + 1 + 1) (ok v)
  unfolding code_of
  literal-Yields c v vm more few there room =
      let k = length c.chunk.values in
      let (first, second) = two_bytes (with_constant c v) (code_of constant) k more in
      let values = more.values ∙ append_assoc c.chunk.values (v ∷ []) more.more_values in
      let found : get_elem? o.chunk.values k ≡ some v =
        ap (λ (xs : List (Value D)). get_elem? xs k) values
        ∙ get_elem?-append_at c.chunk.values more.more_values v in
      let small : k % 256 ≡ k = omega (arith, get_elem?-length o.chunk.values k v found) in
      push-Yields w base fn slots o known vm (length c.chunk.code) v there room (
        step-constant w base fn slots o known vm (length c.chunk.code) k v there first
          (second ∙ ap (λ (n : ℕ). some n) small) found room)

  -- A push does not disturb the local variables.
  Holds-Computes :
      (vm vm' : Vm D) (ip : ℕ) (v : Value D) (locals : ℕ → Value D) (count more : ℕ)
      → more ≡ count
      → Holds w base fn slots o known vm locals count
      → Computes w base fn slots o known vm vm' ip v
      → Holds w base fn slots o known vm' locals more
  unfolding Holds
  Holds-Computes vm vm' ip v locals count more same holds k = (
    omega (arith, holds.0, k.top),
    λ i lt. k.below (slots + i) (omega (arith, holds.0)) ∙ holds.1 i (omega arith),
  )

  variable-Yields :
      (c d : Compiler D) (name : List ℕ) (i : ℕ) (locals : ℕ → Value D) (vm : Vm D)
      → compile c (variable name) ≡ done d
      → resolve_local c name ≡ done (some i)
      → Extends d.chunk o.chunk
      → c.count ≤ 255
      → At base fn slots vm (length c.chunk.code)
      → Holds w base fn slots o known vm locals c.count
      → vm.top < length vm.stack
      → Yields w base fn slots o known vm (length d.chunk.code) (ok (locals i))
  unfolding compile named_variant emit_variant Holds code_of Innermost
  variable-Yields c d name i locals vm h resolved more small there holds room =
      let emits : emit_two c (code_of get_local) i ≡ done d = rw resolved at h in
      let same = emit_two-inv c d (code_of get_local) i emits in
      let (first, second) = two_bytes c (code_of get_local) i (rw same at more) in
      let inside : i < c.count = ((resolve_local_lem c name).0 i resolved).0.0 in
      let byte : i % 256 ≡ i = omega arith in
      rw same (
        rw (length_two c (code_of get_local) i) (
          push-Yields w base fn slots o known vm (length c.chunk.code) (locals i) there room (
            step-get_local w base fn slots o known vm (length c.chunk.code) i (locals i) there first
              (second ∙ ap (λ (n : ℕ). some n) byte) (holds.1 i inside) room)))

  -- The machine, run on the code that was compiled from an arithmetic expression over literals and
  -- local variables, with at most 256 constants and 255 variables and room on the stack, reaches a
  -- state where the expression's value stands on top of the stack, which is unchanged below, or throws
  -- the error of the first operation that fails.
  pub compile-Yields :
      (e : Node D) (c d : Compiler D) (slot : List ℕ → ℕ) (locals : ℕ → Value D) (vm : Vm D)
      → compile c e ≡ done d
      → IsArithmetic c slot e
      → Extends d.chunk o.chunk
      → length o.chunk.values ≤ 256
      → c.count ≤ 255
      → At base fn slots vm (length c.chunk.code)
      → Holds w base fn slots o known vm locals c.count
      → vm.top + leaves e ≤ length vm.stack
      → Yields w base fn slots o known vm (length d.chunk.code) (eval w.floats slot locals e)
  unfolding compile eval leaves IsArithmetic
  compile-Yields (literal v) c d slot locals vm h arithmetic more few small there holds room =
      let cc = with_constant c v in
      let k = length c.chunk.values in
      let same = emit_two-inv cc d (code_of constant) k (compile_literal-inv c d v h) in
      rw same (
        rw (length_two cc (code_of constant) k)
          (literal-Yields c v vm (rw same at more) few there (omega arith)))
  compile-Yields (variable name) c d slot locals vm h arithmetic more few small there holds room =
      variable-Yields c d name (slot name) locals vm h arithmetic more small there holds
        (omega arith)
  compile-Yields (binary op left right) c d slot locals vm h arithmetic more few small there holds
        room =
      let (c₁, c₂, first, second, last) = compile-binary-inv c d op left right h in
      let same = emit-inv c₂ d (operator_code op) last in
      let g₁ = compile-Grows c c₁ left first in
      let g₂ = compile-Grows c₁ c₂ right second in
      let more₃ = rw same at more in
      let more₂ =
        Extends-trans c₂.chunk (emitted c₂ (operator_code op)).chunk o.chunk
          (emitted-Extends c₂ (operator_code op)) more₃ in
      let more₁ = Extends-trans c₁.chunk c₂.chunk o.chunk g₂.chunk more₂ in
      let code = at-emitted c₂ (operator_code op) o.chunk more₃ in
      rw same (
        rw (length-append c₂.chunk.code ((operator_code op % 256) ∷ [])) (
          Yields-then w base fn slots o known vm vm (length c₁.chunk.code)
            (length c₂.chunk.code + 1) (eval w.floats slot locals left) _ (Reaches-refl w base vm)
            refl
            (compile-Yields left c c₁ slot locals vm first arithmetic.1 more₁ few small there holds
              (omega arith))
            λ a vm₁ r₁ k₁.
              Yields-then w base fn slots o known vm vm₁ (length c₂.chunk.code)
                (length c₂.chunk.code + 1) (eval w.floats slot locals right) _ r₁ k₁.frame_size
                (compile-Yields right c₁ c₂ slot locals vm₁ second
                  (IsArithmetic-Grows c c₁ slot right g₁ arithmetic.2) more₂ few
                  (omega (arith, g₁.count)) k₁.at
                  (Holds-Computes vm vm₁ (length c₁.chunk.code) a locals c.count c₁.count g₁.count
                    holds k₁)
                  (omega (arith, k₁.top, k₁.size, leaves_pos left)))
                λ b vm₂ r₂ k₂.
                  operation-Yields w base fn slots o known vm vm₂ (length c₂.chunk.code) op a b r₂
                    arithmetic.0 k₂.at code (omega (arith, k₁.top, k₂.top))
                    (k₂.below vm.top (omega (arith, k₁.top)) ∙ k₁.value) (rw k₁.top at k₂.value)
                    (λ i lt. k₂.below i (omega (arith, k₁.top)) ∙ k₁.below i lt) (k₂.size ∙ k₁.size)
                    (k₂.frame_size ∙ k₁.frame_size)))
