-- ===== src/Hnsw/Load.antt =====
-- src/operand/query/HNSW.cpp: `initNet`, which builds the network from the store, and `add` with it. The
-- records are those that `readEachLayer` visits, in its order: a level, a node, and its neighbours there.
pub mod Edges
pub mod Loaded
pub mod Started
use gqlite.Prelude.{
  ℕ, ◌+◌, ◌≡◌, Bool, true, false, ◌&&◌, ◌||◌, Option, none, some, List, [], ◌∷◌, ◌==◌,
  if◌then◌else◌,
}
use gqlite.Prelude.Options.{◌>>=◌}
use gqlite.Graph.{Graph, node_size}
use gqlite.Network.{add_node}
use gqlite.IdSource.Generator
use gqlite.IdSource.Generator.{Generator}
use gqlite.Hnsw.{Metric, cache_node}
use gqlite.Hnsw.Insert.{Index, join, add}

abbrev pub Record : Type 0
Record = ℕ × (ℕ × List ℕ)

-- The locals of the second walk: the id for the next edge, and the layers' nodes that were visited.
pub record Loading (D : Type 0) : Type 0 where
  pub network : Graph (Option D)
  pub ids : Generator
  pub eid : ℕ
  pub visited : List (ℕ × ℕ)

unfoldable pub is_visited : ℕ → ℕ → List (ℕ × ℕ) → Bool
is_visited level n [] = false
is_visited level n ((l, k) ∷ rest) = l == level && k == n || is_visited level n rest

module _ {D : Type 0} where
  unfoldable pub init_nodes : ℕ → Graph (Option D) → List Record → Graph (Option D)
  init_nodes max_memory g [] = g
  init_nodes max_memory g ((level, (k, ns)) ∷ rest) =
      init_nodes max_memory (add_node none max_memory g k [] none level) rest

  -- A new id is taken if the second call of `addEdge` succeeded.
  unfoldable pub load_edge : Loading D → ℕ → ℕ → ℕ → Option (Loading D)
  unfolding is_visited join Generator.generate
  load_edge s level k n =
      let loaded = (do
        (g, b) ← join none s.network s.eid n k none level
        let (eid, ids) = if b then Generator.generate s.ids else (s.eid, s.ids)
        some (record s { network = g; eid = eid; ids = ids })) in
      if is_visited level n s.visited then some s else loaded

  unfoldable pub load_record : Loading D → ℕ → ℕ → List ℕ → Option (Loading D)
  unfolding load_edge
  load_record s level k [] = some (record s { visited = (level, k) ∷ s.visited })
  load_record s level k (n ∷ ns) = elim (load_edge s level k n) [
    | none ↦ none
    | some s' ↦ load_record s' level k ns
  ]

  unfoldable pub init_edges : Loading D → List Record → Option (Loading D)
  unfolding load_record
  init_edges s [] = some s
  init_edges s ((level, (k, ns)) ∷ rest) = elim (load_record s level k ns) [
    | none ↦ none
    | some s' ↦ init_edges s' rest
  ]

  unfoldable pub init_net : ℕ → Index D → List Record → Option (Index D)
  unfolding init_nodes init_edges Generator.generate
  init_net max_memory ix records =
      let (eid, ids) = Generator.generate ix.ids in
      elim (init_edges
        (record {
          network = init_nodes max_memory ix.network records;
          ids = ids;
          eid = eid;
          visited = [];
        })
        records) [ none ↦ none | some s ↦ some (record ix { network = s.network; ids = s.ids }) ]

-- `add`, whole: an empty network is built first.
unfoldable pub load_and_add :
    {D : Type 0}
    → Metric D
    → D
    → (ℕ → ℕ → List ℕ)
    → ℕ
    → ℕ
    → ℕ
    → List Record
    → Index D
    → ℕ
    → List D
    → ℕ
    → Option (Index D)
unfolding init_net add node_size
load_and_add M zero_d disk m ef max_memory records ix sid vec level =
    if node_size ix.network == 0
    then (elim (init_net max_memory ix records) [
      | none ↦ none
      | some ix' ↦ add M zero_d disk m ef max_memory ix' sid vec level
    ])
    else add M zero_d disk m ef max_memory ix sid vec level

-- The constructor's walk over the records, which fills the cache.
unfoldable pub load_cache : List (List ℕ) → List Record → List (List ℕ)
unfolding cache_node
load_cache cache [] = cache
load_cache cache ((level, (k, ns)) ∷ rest) = load_cache (cache_node cache level k) rest

-- An index as it is constructed over a store with these records, on an empty network.
unfoldable pub new_index : {D : Type 0} → List Record → List (ℕ × List D) → Index D
unfolding load_cache
new_index records vectors = record {
  network = record { nodes = []; edges = [] };
  ids = record { cur = 0; reused = [] };
  cache = load_cache ([] ∷ [] ∷ [] ∷ [] ∷ []) records;
  vectors = vectors;
  updated = false;
}
