-- ===== src/Gvm/Expr/Grows.antt =====
-- src/base/lang/visitor/VariantVisitor.cpp: what compiling an expression adds to the chunk.
use gqlite.Prelude.{
  ℕ, ◌%◌, ◌≤◌, ◌≡◌, refl, sym, ap, ◌∙◌, Bool, true, false, Option, none, some, List, [], ◌∷◌, ◌++◌,
  append_assoc, append-nil, length, arith,
}
use gqlite.Gvm.Value.{Value}
use gqlite.Gvm.Chunk
use gqlite.Gvm.Chunk.{
  Chunk, code_of, constant, set_local, set_global, get_local, get_global, max_byte_code,
}
use gqlite.Gvm.Compiler.{
  ◌>>=◌, Compiler, done, emit, emit_two, emit_variant, named_variant, with_chunk, resolve_local,
  minus_one,
}
use gqlite.Gvm.Compiler.Scope.{>>=-inv}
use gqlite.Gvm.Expr.Meaning.{IsArithmetic, leaves}
use gqlite.Gvm.Expr.{
  Operator, Node, literal, variable, binary, compile, compile_literal, operator_code,
}

module _ {D : Type 0} where
  pub record Extends (a b : Chunk D) : Type 0 where
    pub more_code : List ℕ
    pub code : b.code ≡ a.code ++ more_code
    pub more_values : List (Value D)
    pub values : b.values ≡ a.values ++ more_values

  Extends-refl : (a : Chunk D) → Extends a a
  Extends-refl a = record {
    more_code = [];
    code = sym (append-nil a.code);
    more_values = [];
    values = sym (append-nil a.values);
  }

  pub Extends-trans : (a b c : Chunk D) → Extends a b → Extends b c → Extends a c
  Extends-trans a b c p q = record {
    more_code = p.more_code ++ q.more_code;
    code = rw (q.code, p.code) (append_assoc a.code p.more_code q.more_code);
    more_values = p.more_values ++ q.more_values;
    values = rw (q.values, p.values) (append_assoc a.values p.more_values q.more_values);
  }

  -- What compiling leaves as it was.
  pub record Grows (c d : Compiler D) : Type 0 where
    pub chunk : Extends c.chunk d.chunk
    pub variants : d.variants ≡ c.variants
    pub count : d.count ≡ c.count
    pub scope : d.scope_depth ≡ c.scope_depth

  Grows-trans : (a b c : Compiler D) → Grows a b → Grows b c → Grows a c
  Grows-trans a b c p q = record {
    chunk = Extends-trans a.chunk b.chunk c.chunk p.chunk q.chunk;
    variants = q.variants ∙ p.variants;
    count = q.count ∙ p.count;
    scope = q.scope ∙ p.scope;
  }

  -- The compiler after one more byte.
  abbrev pub emitted : Compiler D → ℕ → Compiler D
  emitted c byte = record c { chunk = record c.chunk { code = c.chunk.code ++ (byte % 256) ∷ [] } }

  pub emit-inv : (c d : Compiler D) (byte : ℕ) → emit c byte ≡ done d → d ≡ emitted c byte
  unfolding emit with_chunk Chunk.push
  emit-inv c d byte h = ground arith

  pub emitted-Extends : (c : Compiler D) (byte : ℕ) → Extends c.chunk (emitted c byte).chunk
  emitted-Extends c byte = record {
    more_code = (byte % 256) ∷ [];
    code = refl;
    more_values = [];
    values = sym (append-nil c.chunk.values);
  }

  emit-Grows : (c d : Compiler D) (byte : ℕ) → emit c byte ≡ done d → Grows c d
  emit-Grows c d byte h =
      rw (emit-inv c d byte h)
        (record { chunk = emitted-Extends c byte; variants = refl; count = refl; scope = refl })

  pub emit_two-inv :
      (c d : Compiler D) (a b : ℕ) → emit_two c a b ≡ done d → d ≡ emitted (emitted c a) b
  unfolding emit_two
  emit_two-inv c d a b h =
      let (c', first, second) = >>=-inv (emit c a) (λ c'. emit c' b) d h in
      emit-inv c' d b second ∙ ap (λ (x : Compiler D). emitted x b) (emit-inv c c' a first)

  emit_two-Grows : (c d : Compiler D) (a b : ℕ) → emit_two c a b ≡ done d → Grows c d
  unfolding emit_two
  emit_two-Grows c d a b h =
      let (c', first, second) = >>=-inv (emit c a) (λ c'. emit c' b) d h in
      Grows-trans c c' d (emit-Grows c c' a first) (emit-Grows c' d b second)

  -- The compiler with one constant more.
  abbrev pub with_constant : Compiler D → Value D → Compiler D
  with_constant c v = record c { chunk = record c.chunk { values = c.chunk.values ++ v ∷ [] } }

  with_constant-Grows : (c : Compiler D) (v : Value D) → Grows c (with_constant c v)
  with_constant-Grows c v = record {
    chunk = record {
      more_code = [];
      code = sym (append-nil c.chunk.code);
      more_values = v ∷ [];
      values = refl;
    };
    variants = refl;
    count = refl;
    scope = refl;
  }

  pub compile_literal-inv :
      (c d : Compiler D) (v : Value D)
      → compile_literal c v ≡ done d
      → emit_two (with_constant c v) (code_of constant) (length c.chunk.values) ≡ done d
  unfolding compile_literal Chunk.add_constant
  compile_literal-inv c d v h = h

  emit_variant-Grows :
      (c d : Compiler D) (assign : Bool) (i : Option ℕ)
      → emit_variant c assign i ≡ done d
      → Grows c d
  unfolding emit_variant
  emit_variant-Grows c d true none h = emit_two-Grows c d (code_of set_global) minus_one h
  emit_variant-Grows c d false none h = emit_two-Grows c d (code_of get_global) minus_one h
  emit_variant-Grows c d true (some i) h = emit_two-Grows c d (code_of set_local) i h
  emit_variant-Grows c d false (some i) h = emit_two-Grows c d (code_of get_local) i h

  -- The compilers between the parts of a binary expression.
  pub compile-binary-inv :
      (c d : Compiler D) (op : Operator) (left right : Node D)
      → compile c (binary op left right) ≡ done d
      → (c₁ c₂ : Compiler D) × (compile c left ≡ done c₁)
        × (compile c₁ right ≡ done c₂)
        × (emit c₂ (operator_code op) ≡ done d)
  unfolding compile
  compile-binary-inv c d op left right h =
      let (c₁, first, later) =
        >>=-inv (compile c left) (λ c'. compile c' right >>= λ c''. emit c'' (operator_code op)) d
          h in
      let (c₂, second, last) =
        >>=-inv (compile c₁ right) (λ c''. emit c'' (operator_code op)) d later in
      (c₁, c₂, first, second, last)

  -- An expression's code is behind the code that was there, and its constants behind the constants;
  -- the variables and the scope are as before.
  pub compile-Grows : (c d : Compiler D) (e : Node D) → compile c e ≡ done d → Grows c d
  unfolding compile named_variant
  compile-Grows c d (literal v) h = Grows-trans c (with_constant c v) d (with_constant-Grows c v) (
      emit_two-Grows (with_constant c v) d (code_of constant) (length c.chunk.values)
        (compile_literal-inv c d v h))
  compile-Grows c d (variable name) h =
      let (i, _, emits) = >>=-inv (resolve_local c name) (λ i. emit_variant c false i) d h in
      emit_variant-Grows c d false i emits
  compile-Grows c d (binary op left right) h =
      let (c₁, c₂, first, second, last) = compile-binary-inv c d op left right h in
      Grows-trans c c₁ d (compile-Grows c c₁ left first) (
        Grows-trans c₁ c₂ d (compile-Grows c₁ c₂ right second)
          (emit-Grows c₂ d (operator_code op) last))

  resolve_local-Grows :
      (c d : Compiler D) (name : List ℕ) → Grows c d → resolve_local d name ≡ resolve_local c name
  unfolding resolve_local
  resolve_local-Grows c d name g = rw (g.variants, g.count) refl

  -- What is local to a compiler is local to it after more code.
  pub IsArithmetic-Grows :
      (c d : Compiler D) (slot : List ℕ → ℕ) (e : Node D)
      → Grows c d
      → IsArithmetic c slot e
      → IsArithmetic d slot e
  unfolding IsArithmetic
  IsArithmetic-Grows c d slot (literal v) g h = h
  IsArithmetic-Grows c d slot (variable name) g h = resolve_local-Grows c d name g ∙ h
  IsArithmetic-Grows c d slot (binary op left right) g h =
      (h.0, IsArithmetic-Grows c d slot left g h.1, IsArithmetic-Grows c d slot right g h.2)

  pub leaves_pos : (e : Node D) → 1 ≤ leaves e
  unfolding leaves
  leaves_pos (literal v) = omega arith
  leaves_pos (variable name) = omega arith
  leaves_pos (binary op left right) = omega (arith, leaves_pos left)
