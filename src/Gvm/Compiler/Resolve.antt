-- ===== src/Gvm/Compiler/Resolve.antt =====
-- src/base/gvm/Compiler.cpp: what a name stands for after it was declared.
use gqlite.Prelude.{
  ℕ, zero, suc, ◌+◌, ◌≤◌, ◌<◌, ◌≡◌, refl, ◌≢◌, ◌⊎◌, inl, inr, Bool, none, some, List, if◌then◌else◌,
  arith,
}
use gqlite.Prelude.Eq.{bytes_beq, bytes_beq_iff}
use gqlite.Gvm.Compiler.{
  LocalVariant, Compiler, done, compile_error, resolve_from, declared_from, put, resolve_local,
  add_local, decl_local, named_variant, minus_one, max_uint8,
}

-- Entries at or above the start of the search do not matter.
pub resolve_from-put :
    (vs : ℕ → LocalVariant) (name : List ℕ) (k : ℕ) (v : LocalVariant) (n : ℕ)
    → n ≤ k
    → resolve_from (put vs k v) name n ≡ resolve_from vs name n
unfolding resolve_from
resolve_from-put vs name k v zero h = refl
resolve_from-put vs name k v (suc n) h = ground (arith, resolve_from-put vs name k v n)

-- The innermost entry of the name below `n`.
unfoldable pub Innermost : (ℕ → LocalVariant) → List ℕ → ℕ → ℕ → Type 0
Innermost vs name n i =
    (i < n) × ((vs i).name ≡ name) × ((j : ℕ) → i < j → j < n → (vs j).name ≢ name)

resolve_from_cases :
    (vs : ℕ → LocalVariant) (name : List ℕ) (n i : ℕ)
    → resolve_from vs name (suc n) ≡ done (some i)
    → (i ≡ n × ((vs n).name ≡ name) × ((vs n).depth ≢ minus_one))
      ⊎ (((vs n).name ≢ name) × (resolve_from vs name n ≡ done (some i)))
unfolding resolve_from
resolve_from_cases vs name n i h = ground (arith, bytes_beq_iff (vs n).name name)

resolve_from-Innermost :
    (vs : ℕ → LocalVariant) (name : List ℕ) (n i : ℕ)
    → resolve_from vs name n ≡ done (some i)
    → Innermost vs name n i × ((vs i).depth ≢ minus_one)
unfolding Innermost resolve_from
resolve_from-Innermost vs name zero i h = ground arith
resolve_from-Innermost vs name (suc n) i h = elim (resolve_from_cases vs name n i h) [
  | inl (e, same, set) ↦ ((omega arith, ground arith, λ j lo hi. ground arith), ground arith)
  | inr (ne, found) ↦ ground (arith, resolve_from-Innermost vs name n i found)
]

resolve_from-none :
    (vs : ℕ → LocalVariant) (name : List ℕ) (n : ℕ)
    → resolve_from vs name n ≡ done none
    → (j : ℕ) → j < n
    → (vs j).name ≢ name
unfolding resolve_from
resolve_from-none vs name zero h j lt = ground arith
resolve_from-none vs name (suc n) h j lt =
    ground (arith, bytes_beq_iff (vs n).name name, resolve_from-none vs name n _ j)

module _ {D : Type 0} where
  -- The compiler after a declaration that succeeds.
  abbrev pub declared : Compiler D → List ℕ → Compiler D
  declared c name = record c {
    variants = put c.variants c.count (record { name = name; depth = c.scope_depth });
    count = c.count + 1;
  }

  pub decl_local-inv :
      (c d : Compiler D) (name : List ℕ)
      → decl_local c name ≡ done d
      → (c.count ≢ max_uint8) × (d ≡ declared c name)
  unfolding decl_local add_local
  decl_local-inv c d name h = ground arith

  -- An index that `resolveLocal` answers is the innermost variable with that name, which has a
  -- depth; where it answers -1 no variable has the name.
  pub resolve_local_lem :
      (c : Compiler D) (name : List ℕ)
      → ((i : ℕ)
          → resolve_local c name ≡ done (some i)
          → Innermost c.variants name c.count i × ((c.variants i).depth ≢ minus_one))
        × (resolve_local c name ≡ done none → (j : ℕ) → j < c.count → (c.variants j).name ≢ name)
  unfolding resolve_local
  resolve_local_lem c name =
      (resolve_from-Innermost c.variants name c.count, resolve_from-none c.variants name c.count)

  -- After a declaration that succeeds, outside the scope -1, the name stands for the new entry and
  -- every other name for what it stood for.
  pub resolve_local-decl_local :
      (c d : Compiler D) (name other : List ℕ)
      → decl_local c name ≡ done d
      → c.scope_depth ≢ minus_one
      → resolve_local d other
        ≡ (if bytes_beq name other then done (some c.count) else resolve_local c other)
  unfolding resolve_local decl_local add_local resolve_from
  resolve_local-decl_local c d name other h set = rw ((decl_local-inv c d name h).1) (
      ground (
        arith,
        resolve_from-put c.variants other c.count (record { name = name; depth = c.scope_depth })
            c.count,
      ))

  -- A name that was declared cannot be declared again in the same scope.
  pub decl_local-decl_local :
      (c d : Compiler D) (name : List ℕ)
      → decl_local c name ≡ done d
      → decl_local d name ≡ compile_error
  unfolding decl_local add_local declared_from
  decl_local-decl_local c d name h =
      rw ((decl_local-inv c d name h).1) (ground (arith, bytes_beq_iff name name))

  -- An index that `resolveLocal` answers is the innermost variable with that name, and it has a depth.
  pub resolve_local-Innermost :
      (c : Compiler D) (name : List ℕ) (i : ℕ)
      → resolve_local c name ≡ done (some i)
      → Innermost c.variants name c.count i × ((c.variants i).depth ≢ minus_one)
  resolve_local-Innermost c name i h = (resolve_local_lem c name).0 i h

  -- Two names that no variable has are compiled to the same code: the index -1 takes the place of a
  -- constant with the name.
  pub named_variant-unresolved :
      (c : Compiler D) (a b : List ℕ) (is_assign : Bool)
      → resolve_local c a ≡ done none
      → resolve_local c b ≡ done none
      → named_variant c a is_assign ≡ named_variant c b is_assign
  unfolding named_variant
  named_variant-unresolved c a b is_assign h k = rw (h, k) refl
