-- ===== src/Graph.antt =====
-- include/base/parallel/GraphModel.h: `GMap`, the in-memory graph, with the status words of
-- include/Graph/Node.h and include/Graph/Edge.h. Its maps are association lists, a `std::set` of
-- node ids is a strictly ascending list. The JSON payload of nodes and edges is a parameter `Json`,
-- since the graph only stores it.
use gqlite.Prelude.{
  ℕ, zero, suc, ◌+◌, Bool, true, false, ◌&&◌, Option, none, some, List, [], ◌∷◌, ◌==◌,
  if◌then◌else◌, length,
}
use gqlite.Prelude.Eq.{nat_eq}
use gqlite.Prelude.Maps.{lookup, insert}
use gqlite.Sorted.{add_unique}

abbrev pub max_layer_size : ℕ
max_layer_size = 4

-- `kind`, `color` and `reserve` are set once and never read by this code.
pub record NodeStatus : Type 0 where
  pub visit : Bool
  pub hold : Bool
  pub del : Bool
  pub layer : ℕ
  pub updated : Bool

pub record EdgeStatus : Type 0 where
  pub updated : Bool
  pub hold : Bool
  pub del : Bool
  pub direction : ℕ
  pub layer : ℕ

-- `node_collection`: the edges of each layer, attributes, payload and status.
pub record Node (Json : Type 0) : Type 0 where
  pub edges : List (List ℕ)
  pub attrs : List ℕ
  pub info : Json
  pub status : NodeStatus

-- `edge_collection`.
pub record Edge (Json : Type 0) : Type 0 where
  pub first : ℕ
  pub second : ℕ
  pub attrs : List ℕ
  pub info : Json
  pub status : EdgeStatus

-- `_visitedNodes` stays empty in the source, so it is not kept.
pub record Graph (Json : Type 0) : Type 0 where
  pub nodes : List (ℕ × Node Json)
  pub edges : List (ℕ × Edge Json)

-- One layer of `std::array<edges_t, MAX_LAYER_SIZE>`.
abbrev pub layer_of : List (List ℕ) → ℕ → List ℕ
layer_of [] l = []
layer_of (x ∷ xs) zero = x
layer_of (x ∷ xs) (suc l) = layer_of xs l

module _ {Json : Type 0} where
  unfoldable pub node_size : Graph Json → ℕ
  node_size g = length g.nodes

  unfoldable pub size : Graph Json → ℕ
  size g = length g.nodes + length g.edges

  -- `visit`: marks the node and copies it out.
  unfoldable pub visit : Graph Json → ℕ → Graph Json × Option (Node Json)
  visit g node = elim (lookup node g.nodes) [
    | none ↦ (g, none)
    | some n ↦
        let seen = record n { status = record (n.status) { visit = true } } in
        (record g { nodes = insert node seen g.nodes }, some seen)
  ]

  unfoldable pub is_visited : Graph Json → ℕ → Bool
  is_visited g node = elim (lookup node g.nodes) [ none ↦ false | some n ↦ n.status.visit ]

  -- The far end of an edge as seen from `id`. A directed edge always shows its second node.
  unfoldable pub far_end : ℕ → Edge Json → ℕ
  far_end id e = if e.status.direction == 0 && e.second == id then e.first else e.second

  -- The loop over the edges of one layer, with the set collected so far.
  unfoldable pub collect : Graph Json → ℕ → List ℕ → List ℕ → List ℕ
  unfolding far_end
  collect g id [] n = n
  collect g id (edge ∷ rest) n = collect g id rest (elim (lookup edge g.edges) [
    | none ↦ n
    | some e ↦ if e.status.del then n else (add_unique n (far_end id e)).0
  ])

  -- All nodes but `id`, which the caller gets when no neighbour was found.
  unfoldable pub others : ℕ → List (ℕ × Node Json) → List ℕ → List ℕ
  others id [] n = n
  others id ((k, v) ∷ m) n = others id m (if k == id then n else (add_unique n k).0)

  abbrev pub layers_of : Option (Node Json) → ℕ → List ℕ
  layers_of none l = []
  layers_of (some n) l = layer_of n.edges l

  abbrev pub layer_edges : Graph Json → ℕ → ℕ → List ℕ
  layer_edges g id level = layers_of (lookup id g.nodes) level

  -- `edges(id, level)`: `none` is the exception of `std::map::at`.
  unfoldable pub edges_of : Graph Json → ℕ → ℕ → Option (List ℕ)
  edges_of g id level = elim (lookup id g.nodes) [
    | none ↦ none
    | some n ↦ some (layer_of n.edges level)
  ]

  unfoldable pub node_info : Graph Json → ℕ → Option Json
  node_info g id = elim (lookup id g.nodes) [ none ↦ none | some n ↦ some n.info ]

  unfoldable pub edge_info : Graph Json → ℕ → Option Json
  edge_info g id = elim (lookup id g.edges) [ none ↦ none | some e ↦ some e.info ]

-- The answer of `neighbors`: what the loop collected, or the other nodes if that is nothing.
abbrev pub found_or : List ℕ → List ℕ → List ℕ × Bool
found_or [] rest = (rest, false)
found_or (x ∷ xs) rest = (x ∷ xs, true)

-- `neighbors`: the set after the call, which starts as `n`, and whether `id` has neighbours.
unfoldable pub neighbors : {Json : Type 0} → Graph Json → ℕ → List ℕ → ℕ → List ℕ × Bool
neighbors g id n level = found_or (collect g id (layer_edges g id level) n) (others id g.nodes [])
