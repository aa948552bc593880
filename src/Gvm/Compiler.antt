-- ===== src/Gvm/Compiler.antt =====
-- src/base/gvm/Compiler.cpp and Compiler.h, `GVM::declareLocalVariant` and `setGlobalVariant`
-- (src/base/gvm/GVM.cpp), and the scopes of `GByteCodeVisitor::apply(GBlockStmt*)`: the local
-- variables of the graph script. The 255 entries of `_variant` are a function of the index. A depth
-- is an `int8_t`, written as its byte: 255 is -1, the depth of a variable without a value.
pub mod Resolve
pub mod Scope
use gqlite.Prelude.{
  ℕ, zero, suc, ◌+◌, ◌-◌, ◌%◌, ◌≡◌, refl, Bool, true, false, ◌&&◌, Option, none, some, List, [],
  ltb, ◌==◌, if◌then◌else◌,
}
use gqlite.Prelude.Eq.{bytes_beq, bytes_eq}
use gqlite.Prelude.Maps.{lookup, insert}
use gqlite.Gvm.Value.{Value}
use gqlite.Gvm.Chunk
use gqlite.Gvm.Chunk.{
  Chunk, OpCode, code_of, empty_chunk, set_global, get_global, set_local, get_local, pop,
}

abbrev pub max_uint8 : ℕ
max_uint8 = 255

-- `int8_t` order on the bytes.
abbrev pub ltb_int8 : ℕ → ℕ → Bool
ltb_int8 a b = ltb ((a + 128) % 256) ((b + 128) % 256)

abbrev pub minus_one : ℕ
minus_one = 255

pub record LocalVariant : Type 0 where
  pub name : List ℕ
  pub depth : ℕ

-- What the compiler answers: a value, the `GCompileException` it throws, or `overrun` where it
-- writes behind the 1024 bytes of the chunk.
pub data Compiled {ℓ} (A : Type ℓ) : Type ℓ where
  done : A → Compiled A
  compile_error overrun : Compiled A

infixl 5 ◌>>=◌
abbrev pub ◌>>=◌ {ℓ κ} : {A : Type ℓ} {B : Type κ} → Compiled A → (A → Compiled B) → Compiled B
done a >>= f = f a
compile_error >>= f = compile_error
overrun >>= f = overrun

pub record Compiler (D : Type 0) : Type 0 where
  pub chunk : Chunk D
  pub variants : ℕ → LocalVariant
  pub count : ℕ
  pub scope_depth : ℕ

-- The loop of `resolveLocal` from the index `i - 1` down: the index found, or `none` for -1.
unfoldable pub resolve_from : (ℕ → LocalVariant) → List ℕ → ℕ → Compiled (Option ℕ)
resolve_from vs name zero = done none
resolve_from vs name (suc i) =
    let rest = resolve_from vs name i in
    if bytes_beq (vs i).name name
    then (if (vs i).depth == minus_one then compile_error else done (some i))
    else rest

-- The loop of `declLocal` over the variables of the current scope: is `name` one of them?
unfoldable pub declared_from : (ℕ → LocalVariant) → ℕ → List ℕ → ℕ → Bool
declared_from vs scope name zero = false
declared_from vs scope name (suc i) =
    let rest = declared_from vs scope name i in
    if ltb_int8 (vs i).depth scope then false else if bytes_beq (vs i).name name then true else rest

abbrev pub put : (ℕ → LocalVariant) → ℕ → LocalVariant → ℕ → LocalVariant
put vs i v j = if j == i then v else vs j

module _ {D : Type 0} where
  abbrev pub new_compiler : Compiler D
  new_compiler = record {
    chunk = empty_chunk;
    variants = (λ i. record { name = []; depth = minus_one });
    count = 1;
    scope_depth = 0;
  }

  unfoldable pub resolve_local : Compiler D → List ℕ → Compiled (Option ℕ)
  unfolding resolve_from
  resolve_local c name = resolve_from c.variants name c.count

  unfoldable pub with_chunk : Compiler D → Option (Chunk D) → Compiled (Compiler D)
  with_chunk c none = overrun
  with_chunk c (some chunk) = done (record c { chunk = chunk })

  unfoldable pub emit : Compiler D → ℕ → Compiled (Compiler D)
  unfolding with_chunk Chunk.push
  emit c byte = with_chunk c (Chunk.push c.chunk byte)

  -- `emit(byte, args...)` with one argument.
  unfoldable pub emit_two : Compiler D → ℕ → ℕ → Compiled (Compiler D)
  unfolding emit
  emit_two c byte arg = emit c byte >>= λ c'. emit c' arg

  -- The instruction for a resolved index; the index -1 is emitted as a byte.
  unfoldable pub emit_variant : Compiler D → Bool → Option ℕ → Compiled (Compiler D)
  unfolding emit_two code_of
  emit_variant c true none = emit_two c (code_of set_global) minus_one
  emit_variant c false none = emit_two c (code_of get_global) minus_one
  emit_variant c true (some i) = emit_two c (code_of set_local) i
  emit_variant c false (some i) = emit_two c (code_of get_local) i

  unfoldable pub named_variant : Compiler D → List ℕ → Bool → Compiled (Compiler D)
  unfolding resolve_local emit_variant
  named_variant c name is_assign = resolve_local c name >>= λ index. emit_variant c is_assign index

  unfoldable pub add_local : Compiler D → List ℕ → Compiled (Compiler D)
  add_local c name =
      if c.count == max_uint8
      then compile_error
      else done (record c {
        variants = put c.variants c.count (record { name = name; depth = c.scope_depth });
        count = c.count + 1;
      })

  unfoldable pub decl_local : Compiler D → List ℕ → Compiled (Compiler D)
  unfolding declared_from add_local
  decl_local c name =
      if declared_from c.variants c.scope_depth name c.count
      then compile_error
      else add_local c name

  unfoldable pub begin_scope : Compiler D → Compiler D
  begin_scope c = record c { scope_depth = (c.scope_depth + 1) % 256 }

  -- The loop that ends a block: a pop for each variable that is deeper than the scope.
  unfoldable pub pop_from : Compiler D → ℕ → Compiled (Compiler D)
  unfolding emit code_of
  pop_from c zero = done (record c { count = 0 })
  pop_from c (suc n) =
      if ltb_int8 c.scope_depth (c.variants n).depth
      then (emit (record c { count = suc n }) (code_of pop) >>= λ c'. pop_from c' n)
      else done (record c { count = suc n })

  unfoldable pub end_scope : Compiler D → Compiled (Compiler D)
  unfolding pop_from
  end_scope c = pop_from (record c { scope_depth = (c.scope_depth + 255) % 256 }) c.count

  -- The globals that `setGlobalVariant` leaves, or `none` for `ECode_Compile_Warn_Var_Exist`.
  -- `is_empty` is `Variant::empty`.
  unfoldable pub set_global_variant :
      (Value D → Bool)
      → List (List ℕ × Value D)
      → List ℕ
      → Value D
      → Option (List (List ℕ × Value D))
  set_global_variant is_empty globals name value = elim (lookup name globals) [
    | none ↦ some (insert name value globals)
    | some old ↦ if is_empty old then some (insert name value globals) else none
  ]

  -- `declareLocalVariant`: a global at the top, or a local variable. An empty value leaves the depth
  -- of its entry as it was.
  unfoldable pub declare_local_variant :
      (Value D → Bool)
      → Compiler D
      → List (List ℕ × Value D)
      → List ℕ
      → Value D
      → Compiled (Compiler D × List (List ℕ × Value D))
  unfolding declared_from set_global_variant
  declare_local_variant is_empty c globals name value =
      if c.scope_depth == 0
      then (elim (set_global_variant is_empty globals name value) [
        | none ↦ compile_error
        | some globals' ↦ done (c, globals')
      ])
      else if c.count == max_uint8
      then compile_error
      else if declared_from c.variants c.scope_depth name c.count && is_empty value
      then compile_error
      else (let old = (c.variants c.count).depth in
          let depth = if is_empty value then old else c.scope_depth in
          done (
            record c {
              variants = put c.variants c.count (record { name = name; depth = depth });
              count = c.count + 1;
            },
            globals,
          ))
