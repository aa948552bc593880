-- ===== src/IdSource/Generator.antt =====
-- include/base/IDGenerator.h: `GIDGenerator`, for the edge ids of include/base/parallel/GraphModel.h,
-- whose `operator++(edge_t&, int)` returns the id after the increment.
use gqlite.Prelude.{
  ℕ, ◌+◌, ◌%◌, ◌^◌, ◌≤◌, ◌<◌, ◌≡◌, List, [], ◌∷◌, ◌++◌, ◌==◌, if◌then◌else◌, arith,
}

pub record Generator : Type 0 where
  pub cur : ℕ
  pub reused : List ℕ

abbrev pub new_generator : Generator
new_generator = record { cur = 0; reused = [] }

-- `_cur++`.
unfoldable pub post_increment : ℕ → ℕ
post_increment cur = (cur + 1) % 2 ^ 64

unfoldable pub generate : Generator → ℕ × Generator
unfolding post_increment
generate g = elim g.reused [
  | [] ↦ (post_increment g.cur, record g { cur = post_increment g.cur })
  | id ∷ rest ↦ (id, record g { reused = rest })
]

unfoldable pub recycle : Generator → ℕ → Generator
recycle g id = record g { reused = g.reused ++ id ∷ [] }

-- How often an id is in a list.
unfoldable pub count : ℕ → List ℕ → ℕ
count id [] = 0
count id (x ∷ xs) = (if x == id then 1 else 0) + count id xs

count-append : (id : ℕ) (xs ys : List ℕ) → count id (xs ++ ys) ≡ count id xs + count id ys
unfolding count
count-append id [] ys = omega arith
count-append id (x ∷ xs) ys = omega (arith, count-append id xs ys)

-- The ids in use and the ids to reuse are different from one another, and none is above `_cur`.
pub record IsValid (g : Generator) (used : List ℕ) : Type 0 where
  pub once : (id : ℕ) → count id used + count id g.reused ≤ 1
  pub above : (id : ℕ) → g.cur < id → count id used + count id g.reused ≡ 0

generate_from :
    (cur : ℕ) (reused used : List ℕ)
    → IsValid (record { cur = cur; reused = reused }) used
    → cur + 1 < 2 ^ 64
    → let r = generate (record { cur = cur; reused = reused }) in
      (count r.0 used ≡ 0) × IsValid r.1 (r.0 ∷ used)
unfolding generate post_increment count
generate_from cur [] used v room = (
  ground (arith, v.above (cur + 1)),
  record {
    once = (λ id. ground (arith, v.once id, v.above id));
    above = λ id lt. ground (arith, v.above id);
  },
)
generate_from cur (x ∷ rest) used v room = (
  ground (arith, v.once x),
  record { once = (λ id. ground (arith, v.once id)); above = λ id lt. ground (arith, v.above id) },
)

-- A generator that has not used up its 64 bits gives out an id that is not in use, and stays valid.
pub generate-IsValid :
    (g : Generator) (used : List ℕ)
    → IsValid g used
    → g.cur + 1 < 2 ^ 64
    → (count (generate g).0 used ≡ 0) × IsValid (generate g).1 ((generate g).0 ∷ used)
generate-IsValid g used v room = generate_from g.cur g.reused used v room

-- An id in use that is recycled can be given out again.
pub recycle-IsValid :
    (g : Generator) (id : ℕ) (used : List ℕ) → IsValid g (id ∷ used) → IsValid (recycle g id) used
unfolding recycle count
recycle-IsValid g id used v = record {
  once = (λ a. ground (arith, v.once a, count-append a g.reused (id ∷ [])));
  above = λ a lt. ground (arith, v.above a lt, count-append a g.reused (id ∷ []));
}
