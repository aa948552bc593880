-- ===== src/Tests/Names.antt =====
-- The compiler's local variables at concrete inputs.
use gqlite.Prelude.{ℕ, ◌≡◌, refl, List, [], ◌∷◌, ◌++◌, replicate, if◌then◌else◌, ltb, arith}
use gqlite.Gvm.Chunk.{code_of, pop, empty_chunk}
use gqlite.Gvm.Compiler.{
  Compiler, done, resolve_local, decl_local, declared_from, add_local, begin_scope, end_scope,
  minus_one,
}
use gqlite.Gvm.Compiler.Resolve.{declared}
use gqlite.Gvm.Compiler.Scope.{IsShallow, declare_all, end_scope-declare_all}

abbrev x : List ℕ
x = 120 ∷ []

abbrev y : List ℕ
y = 121 ∷ []

-- Inside a block, with the variable x.
abbrev inside : Compiler ℕ
inside = record {
  chunk = empty_chunk;
  variants = (λ i.
      if ltb i 1 then record { name = []; depth = minus_one } else record { name = x; depth = 1 });
  count = 2;
  scope_depth = 1;
}

y-declared : decl_local inside y ≡ done (declared inside y)
unfolding decl_local declared_from add_local
y-declared = refl

inside-IsShallow : IsShallow inside
unfolding IsShallow
inside-IsShallow = (omega arith, λ i lt. ground arith)

abbrev deeper : Compiler ℕ
deeper = declared (declared (begin_scope inside) x) y

block_declared : declare_all (begin_scope inside) (x ∷ y ∷ []) ≡ done deeper
unfolding decl_local declared_from add_local begin_scope
block_declared = refl

end_scope-declare_all_example :
    (e : Compiler ℕ) × (end_scope deeper ≡ done e)
    × (e.count ≡ inside.count)
    × (e.scope_depth ≡ inside.scope_depth)
    × (e.chunk.values ≡ inside.chunk.values)
    × (e.chunk.code ≡ inside.chunk.code ++ replicate 2 (code_of pop))
    × ((name : List ℕ) → resolve_local e name ≡ resolve_local inside name)
end_scope-declare_all_example =
    end_scope-declare_all inside deeper (x ∷ y ∷ []) inside-IsShallow block_declared (omega arith)
