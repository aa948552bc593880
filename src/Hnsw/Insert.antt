-- ===== src/Hnsw/Insert.antt =====
-- src/operand/query/HNSW.cpp: `add`, with `addNode2Edge`, and `selectNeighbors`. The payload of an
-- edge is its distance, or `none` for the null payload; `zero_d` is 0.0.
pub mod Joined
pub mod Clipped
pub mod Searched
pub mod Sound
pub mod Levels
pub mod Added
use gqlite.Prelude.{
  ℕ, zero, suc, ◌+◌, ◌-◌, ◌^◌, ◌%◌, ◌≡◌, Bool, true, false, not, Option, none, some, List, [], ◌∷◌,
  ◌==◌, leb, if◌then◌else◌, length,
}
use gqlite.Prelude.Eq.{nat_eq}
use gqlite.Prelude.Maps.{lookup, insert}
use gqlite.Prelude.Options.{◌>>=◌}
use gqlite.Sorted.{add_unique}
use gqlite.Graph.{Graph, node_size, neighbors}
use gqlite.Network.{add_node, add_edge}
use gqlite.IdSource.Generator
use gqlite.IdSource.Generator.{Generator}
use gqlite.Hnsw.{Detail, Metric, query_layer, entry, add_disk, clip}

-- The members of `GHNSW` that change: `vectors` are the records of the property map.
pub record Index (D : Type 0) : Type 0 where
  pub network : Graph (Option D)
  pub ids : Generator
  pub cache : List (List ℕ)
  pub vectors : List (ℕ × List D)
  pub updated : Bool

unfoldable pub set_of : List ℕ → List ℕ
unfolding add_unique
set_of [] = []
set_of (x ∷ xs) = (add_unique (set_of xs) x).0

unfoldable pub ids_of : {D : Type 0} → List (Detail D) → List ℕ
ids_of [] = []
ids_of ((n, _) ∷ ds) = n ∷ ids_of ds

-- `mNodes[id]`, where a later element of the list overwrites an earlier one.
unfoldable pub near_of : {D : Type 0} → D → List (Detail D) → ℕ → D
near_of d [] id = d
near_of d ((n, (x, _)) ∷ ds) id = near_of (if n == id then x else d) ds id

abbrev pub or_nil : {D : Type 0} → Option (List D) → List D
or_nil none = []
or_nil (some v) = v

unfoldable pub id2vector : {D : Type 0} → List (ℕ × List D) → ℕ → List D
id2vector vectors id = or_nil (lookup id vectors)

-- `disk` is what the store holds for a layer and a node.
unfoldable pub neighborhood : {D : Type 0} → (ℕ → ℕ → List ℕ) → Graph D → ℕ → ℕ → List ℕ
unfolding set_of
neighborhood disk g layer id =
    if node_size g == 0 then set_of (disk layer id) else (neighbors g id [] layer).0

-- The two calls of `addEdge` with one id.
unfoldable pub join : {D : Type 0} → D → Graph D → ℕ → ℕ → ℕ → D → ℕ → Option (Graph D × Bool)
join zero_d g id from to value level = do
  (g', _) ← add_edge zero_d g id from to [] value level
  add_edge zero_d g' id to from [] value level

-- `_M - 1` in 64 bits.
abbrev pub one_less : ℕ → ℕ
one_less m = if m == 0 then 2 ^ 64 - 1 else m - 1

-- `_M` is `m`.
module _ {D : Type 0} (M : Metric D) (zero_d : D) (m : ℕ) where
  -- The loop over the neighbours that were selected.
  unfoldable pub connect : Index D → ℕ → ℕ → (ℕ → D) → ℕ → Option (Index D)
  unfolding join Generator.generate
  connect ix node level near nid =
      let (eid, ids) = Generator.generate ix.ids in
      let joined = (do
        g ← clip M.less zero_d ix.network node level (one_less m)
        g' ← clip M.less zero_d g nid level (one_less m)
        (g'', _) ← join none g' eid node nid (some (near nid)) level
        some (record ix { network = g''; ids = ids })) in
      if node == nid then some ix else joined

  unfoldable pub connect_all : Index D → ℕ → ℕ → (ℕ → D) → List ℕ → Option (Index D)
  unfolding connect
  connect_all ix node level near [] = some ix
  connect_all ix node level near (nid ∷ ns) = elim (connect ix node level near nid) [
    | none ↦ none
    | some ix' ↦ connect_all ix' node level near ns
  ]

-- `_ef` is `ef`; `fuel` bounds the rounds of a search.
module _ {D : Type 0} (M : Metric D) (zero_d : D) (disk : ℕ → ℕ → List ℕ) (m ef fuel : ℕ) where
  unfoldable pub search : Index D → List D → ℕ → ℕ → ℕ → List (Detail D)
  unfolding id2vector neighborhood
  search ix vec ep count layer =
      (query_layer M (id2vector ix.vectors) (neighborhood disk ix.network layer) vec count fuel
        ep).0

  -- `entry(level)` overwrites the level, so the search is in the top layer. `none` is a cache with no node.
  unfoldable pub select_neighbors : Index D → List D → ℕ → Option (List ℕ)
  unfolding search set_of ids_of
  select_neighbors ix vec count = do
    (level, ep) ← entry ix.cache
    some (set_of (ids_of (search ix vec ep count level)))

  unfoldable pub add_level : Index D → ℕ → List D → ℕ → ℕ → Option (Index D)
  unfolding search near_of select_neighbors connect_all
  add_level ix node vec ep level = do
    ns ← select_neighbors ix vec (m % 256)
    connect_all M zero_d m ix node level (near_of zero_d (search ix vec ep ef level)) ns

  -- The levels from `level` down to 0.
  unfoldable pub add_levels : Index D → ℕ → List D → ℕ → ℕ → Option (Index D)
  unfolding add_level
  add_levels ix node vec ep zero = add_level ix node vec ep 0
  add_levels ix node vec ep (suc level) = elim (add_level ix node vec ep (suc level)) [
    | none ↦ none
    | some ix' ↦ add_levels ix' node vec ep level
  ]

  -- The loop from `startLevel` up: the level and the entry point that it leaves.
  unfoldable pub climb : Index D → List D → ℕ → ℕ → ℕ → ℕ → ℕ × ℕ
  unfolding search
  climb ix vec zero level start ep = (start, ep)
  climb ix vec (suc rounds) level start ep = elim (search ix vec ep 1 level) [
    | [] ↦ (level, ep)
    | (n, _) ∷ _ ↦ climb ix vec rounds (suc level) start n
  ]

  -- `none` is a failed assertion or an exception.
  unfoldable pub add_node2edge : Index D → ℕ → List D → ℕ → Option (Index D)
  unfolding climb add_levels
  add_node2edge ix node vec new_level = do
    (start, ep) ← entry ix.cache
    let (start', ep') = climb ix vec (new_level + 1 - start) start start ep
    add_levels ix node vec ep' (if leb start' new_level then start' else new_level)

abbrev pub is_filled : {D : Type 0} → List D → Bool
is_filled [] = false
is_filled (x ∷ xs) = true

-- `add`, on a network that was built, for the level that `getLayer` draws.
unfoldable pub add :
    {D : Type 0}
    → Metric D
    → D
    → (ℕ → ℕ → List ℕ)
    → ℕ
    → ℕ
    → ℕ
    → Index D
    → ℕ
    → List D
    → ℕ
    → Option (Index D)
unfolding id2vector add_node2edge
add M zero_d disk m ef max_memory ix sid vec level =
    let (cache, added) = add_disk (is_filled (id2vector ix.vectors sid)) ix.cache sid level in
    let g = add_node none max_memory ix.network sid [] none level in
    let ix' = record ix { cache = cache; vectors = insert sid vec ix.vectors; network = g } in
    let grown = (do
      r ← add_node2edge M zero_d disk m ef (suc (suc (length g.nodes))) ix' sid vec level
      some (record r { updated = true })) in
    if added then grown else some ix
