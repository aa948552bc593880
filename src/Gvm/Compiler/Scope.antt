-- ===== src/Gvm/Compiler/Scope.antt =====
-- src/base/lang/visitor/ByteCodeVisitor.cpp, `apply(GBlockStmt*)`: what a block leaves behind.
use gqlite.Prelude.{
  ℕ, zero, suc, ◌+◌, ◌%◌, ◌≤◌, ◌<◌, ◌≡◌, refl, sym, ◌∙◌, true, false, List, [], ◌∷◌, ◌++◌,
  append_assoc, append-nil, length, length-append, replicate, arith,
}
use gqlite.Gvm.Chunk
use gqlite.Gvm.Chunk.{Chunk, code_of, pop, max_byte_code}
use gqlite.Gvm.Compiler.{
  ◌>>=◌, LocalVariant, Compiler, Compiled, done, compile_error, overrun, resolve_from,
  resolve_local, decl_local, emit, with_chunk, begin_scope, end_scope, pop_from, ltb_int8,
}
use gqlite.Gvm.Compiler.Resolve.{declared, decl_local-inv}

resolve_from-agree :
    (vs ws : ℕ → LocalVariant) (name : List ℕ) (n : ℕ)
    → ((i : ℕ) → i < n → vs i ≡ ws i)
    → resolve_from vs name n ≡ resolve_from ws name n
unfolding resolve_from
resolve_from-agree vs ws name zero h = refl
resolve_from-agree vs ws name (suc n) h =
    ground (arith, h n, resolve_from-agree vs ws name n (λ i lt. h i (omega arith)))

pub >>=-inv :
    {A B : Type 0} (r : Compiled A) (f : A → Compiled B) (b : B)
    → (r >>= f) ≡ done b
    → (a : A) × (r ≡ done a) × (f a ≡ done b)
>>=-inv (done a) f b h = (a, refl, h)
>>=-inv compile_error f b h = ground arith
>>=-inv overrun f b h = ground arith

module _ {D : Type 0} where
  -- No variable is deeper than the scope, and the scope has room for one more.
  unfoldable pub IsShallow : Compiler D → Type 0
  IsShallow c =
      (c.scope_depth < 127)
      × ((i : ℕ) → i < c.count → ltb_int8 c.scope_depth (c.variants i).depth ≡ false)

  -- The declarations of a block, one after the other.
  abbrev pub declare_all : Compiler D → List (List ℕ) → Compiled (Compiler D)
  declare_all c [] = done c
  declare_all c (name ∷ names) = decl_local c name >>= λ c'. declare_all c' names

  -- What `k` declarations in a scope add to the compiler.
  record Added (c d : Compiler D) (k : ℕ) : Type 0 where
    counted : d.count ≡ c.count + k
    scope : d.scope_depth ≡ c.scope_depth
    same_chunk : d.chunk ≡ c.chunk
    below : (i : ℕ) → i < c.count → d.variants i ≡ c.variants i
    above : (i : ℕ) → c.count ≤ i → i < d.count → (d.variants i).depth ≡ c.scope_depth

  declare_all-Added :
      (c d : Compiler D) (names : List (List ℕ))
      → declare_all c names ≡ done d
      → Added c d (length names)
  declare_all-Added c d [] h =
      let same : d ≡ c = ground arith in
      rw same (record {
        counted = omega arith;
        scope = refl;
        same_chunk = refl;
        below = (λ i lt. refl);
        above = λ i lo hi. ground arith;
      })
  declare_all-Added c d (name ∷ names) h =
      let (c', e, later) = >>=-inv (decl_local c name) (λ c'. declare_all c' names) d h in
      let same : c' ≡ declared c name = (decl_local-inv c c' name e).1 in
      let rest : Added (declared c name) d (length names) =
        declare_all-Added (declared c name) d names (rw (sym same) later) in
      record {
        counted = ground (arith, rest.counted);
        scope = rest.scope;
        same_chunk = rest.same_chunk;
        below = (λ i lt. ground (arith, rest.below i));
        above = λ i lo hi. ground (arith, rest.above i, rest.below i);
      }

  -- The compiler that the loop of a block's end leaves.
  abbrev popped : Compiler D → ℕ → ℕ → Compiler D
  popped d m k = record d {
    count = m;
    chunk = record d.chunk { code = d.chunk.code ++ replicate k (code_of pop) };
  }

  emit_pop :
      (d : Compiler D) (n : ℕ)
      → length d.chunk.code + 1 ≤ max_byte_code
      → emit (record d { count = n }) (code_of pop) ≡ done (popped d n 1)
  unfolding emit with_chunk Chunk.push code_of
  emit_pop d n room = ground arith

  pop_from-suc :
      (d : Compiler D) (n : ℕ)
      → length d.chunk.code + 1 ≤ max_byte_code
      → ltb_int8 d.scope_depth (d.variants n).depth ≡ true
      → pop_from d (suc n) ≡ pop_from (popped d (suc n) 1) n
  unfolding pop_from code_of
  pop_from-suc d n room deep = rw (deep, emit_pop d (suc n) room) refl

  pop_from-shallow :
      (d : Compiler D) (m : ℕ)
      → ((i : ℕ) → i < m → ltb_int8 d.scope_depth (d.variants i).depth ≡ false)
      → pop_from d m ≡ done (record d { count = m })
  unfolding pop_from
  pop_from-shallow d zero low = refl
  pop_from-shallow d (suc m) low = rw (low m (omega arith)) refl

  pop_from_lem :
      (d : Compiler D) (m k n : ℕ)
      → n ≡ k + m
      → length d.chunk.code + k ≤ max_byte_code
      → ((i : ℕ) → i < m → ltb_int8 d.scope_depth (d.variants i).depth ≡ false)
      → ((i : ℕ) → m ≤ i → i < k + m → ltb_int8 d.scope_depth (d.variants i).depth ≡ true)
      → pop_from d n ≡ done (popped d m k)
  unfolding pop_from code_of
  pop_from_lem d m zero n e room low high =
      let same : n ≡ m = omega arith in
      rw (same, append-nil d.chunk.code) (pop_from-shallow d m low)
  pop_from_lem d m (suc k) zero e room low high = ground arith
  pop_from_lem d m (suc k) (suc n) e room low high =
      let p = popped d (suc n) 1 in
      pop_from-suc d n (omega arith) (high n (omega arith) (omega arith))
      ∙ pop_from_lem p m k n (omega arith) (omega (arith, length-append d.chunk.code (4 ∷ []))) low
          (λ i lo hi. high i lo (omega arith))
      ∙ rw (append_assoc d.chunk.code (4 ∷ []) (replicate k 4)) refl

  -- A block that declares names in a scope that is not the deepest one, with room in the chunk, leaves
  -- the variables, the scope, the constants and the meaning of every name as before it, and one pop
  -- for each of its names.
  pub end_scope-declare_all :
      (c d : Compiler D) (names : List (List ℕ))
      → IsShallow c
      → declare_all (begin_scope c) names ≡ done d
      → length c.chunk.code + length names ≤ max_byte_code
      → (e : Compiler D) × (end_scope d ≡ done e)
        × (e.count ≡ c.count)
        × (e.scope_depth ≡ c.scope_depth)
        × (e.chunk.values ≡ c.chunk.values)
        × (e.chunk.code ≡ c.chunk.code ++ replicate (length names) (code_of pop))
        × ((name : List ℕ) → resolve_local e name ≡ resolve_local c name)
  unfolding end_scope begin_scope resolve_local IsShallow
  end_scope-declare_all c d names shallow h room =
      let added = declare_all-Added (begin_scope c) d names h in
      let d' = record d { scope_depth = (d.scope_depth + 255) % 256 } in
      let k = length names in
      (
        popped d' c.count k,
        pop_from_lem d' c.count k d.count (omega (arith, added.counted))
            (ground (arith, added.same_chunk))
            (λ i lo. ground (arith, added.scope, added.below i lo, shallow.1 i lo))
            (λ i lo hi. ground (arith, shallow, added.scope, added.counted, added.above i lo)),
        refl,
        ground (arith, shallow, added.scope),
        ground (arith, added.same_chunk),
        ground (arith, added.same_chunk),
        λ name. resolve_from-agree d.variants c.variants name c.count added.below,
      )
