-- ===== src/Network.antt =====
-- src/VirtualNetwork.cpp: the operations of `GVirtualNetwork` on its graph. Levels are below
-- `max_layer_size`; the source does not test them.
pub mod Layers
pub mod Links
pub mod WellFormed
pub mod Preserved
pub mod Delete
pub mod Neighbors
pub mod Join
use gqlite.Prelude.{
  ℕ, zero, suc, ◌+◌, ◌-◌, ◌%◌, ◌^◌, Bool, true, false, not, ◌&&◌, Option, none, some, List, [], ◌∷◌,
  ◌++◌, ◌==◌, ltb, leb, if◌then◌else◌, length, set, replicate, drop,
}
use gqlite.Prelude.Eq.{nat_eq}
use gqlite.Prelude.Maps.{lookup, insert, erase, contains}
use gqlite.Prelude.Options.{◌>>=◌}
use gqlite.Sorted.{add_unique, member}
use gqlite.Graph.{
  Graph, size, Node, Edge, NodeStatus, EdgeStatus, neighbors, layer_of, max_layer_size,
}

-- `no_edge`.
abbrev pub no_edge : ℕ
no_edge = 2 ^ 64 - 1

-- `std::remove` on a list, then the erasure of one element at the new end: the elements that differ
-- from `id`, and behind them what the algorithm left in place.
pub without : ℕ → List ℕ → List ℕ
without id [] = []
without id (x ∷ xs) = if x == id then without id xs else x ∷ without id xs

unfoldable pub remove_erase : ℕ → List ℕ → List ℕ
unfolding without
remove_erase id xs = let kept = without id xs in kept ++ drop (length kept + 1) xs

-- The loop of `eraseEdgeFrom`, from the top layer down to the first one that holds the edge.
unfoldable pub erase_from : ℕ → ℕ → List (List ℕ) → List (List ℕ)
unfolding remove_erase
erase_from id zero layers = layers
erase_from id (suc level) layers =
    let rest = erase_from id level layers in
    if member id (layer_of layers level)
    then set layers level (remove_erase id (layer_of layers level))
    else rest

-- `GMap::clean` loops over `_visitedNodes`, which is always empty.
clean : {Json : Type 0} → Graph Json → Graph Json
clean g = g

module _ {Json : Type 0} (null : Json) where
  -- What `std::map::operator[]` inserts for a key that the map lacks; `null` is the default payload.
  abbrev pub fresh_node : Node Json
  fresh_node = record {
    edges = replicate max_layer_size [];
    attrs = [];
    info = null;
    status = record { visit = false; hold = false; del = false; layer = 0; updated = false };
  }

  abbrev pub fresh_edge : Edge Json
  fresh_edge = record {
    first = 0;
    second = 0;
    attrs = [];
    info = null;
    status = record { updated = false; hold = false; del = false; direction = 0; layer = 0 };
  }

  abbrev pub or_fresh : Option (Node Json) → Node Json
  or_fresh none = fresh_node
  or_fresh (some n) = n

  abbrev pub node_at : ℕ → List (ℕ × Node Json) → Node Json
  node_at id m = or_fresh (lookup id m)

  abbrev pub or_fresh_edge : Option (Edge Json) → Edge Json
  or_fresh_edge none = fresh_edge
  or_fresh_edge (some e) = e

  abbrev pub edge_at : ℕ → List (ℕ × Edge Json) → Edge Json
  edge_at id m = or_fresh_edge (lookup id m)

  -- `layer : 3` keeps the level modulo 8.
  abbrev pub new_node : List ℕ → Json → ℕ → Node Json
  new_node attr value level = record {
    edges = replicate max_layer_size [];
    attrs = attr;
    info = value;
    status = record {
      visit = false;
      hold = false;
      del = false;
      layer = level % 8;
      updated = false;
    };
  }

  -- A node that exists is left alone: the test of its layer guards an early return only.
  unfoldable pub put_node : Graph Json → ℕ → List ℕ → Json → ℕ → Graph Json
  put_node g id attr value level = elim (lookup id g.nodes) [
    | some n ↦ g
    | none ↦ record g { nodes = insert id (new_node attr value level) g.nodes }
  ]

  unfoldable pub add_node : ℕ → Graph Json → ℕ → List ℕ → Json → ℕ → Graph Json
  unfolding clean size put_node
  add_node max_memory g id attr value level =
      put_node (if leb max_memory (size g) then clean g else g) id attr value level

  -- With `mark`: `none` stands for the wait on `hold`, which nothing ends here.
  unfoldable pub delete_node : Graph Json → ℕ → Bool → Option (Graph Json)
  delete_node g id mark =
      let node = node_at id g.nodes in
      let status = record (node.status) { updated = true; del = true } in
      let marked = record g { nodes = insert id (record node { status = status }) g.nodes } in
      if mark then (if node.status.hold then none else some marked) else some g

  -- `addUniqueDataAndSort(edges[level], id)` on one node.
  unfoldable pub link : ℕ → ℕ → ℕ → List (ℕ × Node Json) → List (ℕ × Node Json)
  link id level node m =
      let n = node_at node m in
      let layers = set n.edges level (add_unique (layer_of n.edges level) id).0 in
      insert node (record n { edges = layers }) m

  abbrev pub new_edge : ℕ → ℕ → List ℕ → Json → ℕ → Edge Json
  new_edge from to attr value level = record {
    first = from;
    second = to;
    attrs = attr;
    info = value;
    status = record {
      updated = false;
      hold = false;
      del = false;
      direction = 2;
      layer = level % 4;
    };
  }

  -- The branch of `addEdge` for an edge that is not there in the other direction.
  unfoldable pub insert_edge : Graph Json → ℕ → ℕ → ℕ → List ℕ → Json → ℕ → Graph Json
  insert_edge g id from to attr value level = record {
    nodes = link id level to (link id level from g.nodes);
    edges = insert id (new_edge from to attr value level) g.edges;
  }

  -- The branch of `addEdge` for the way back of an edge: it becomes bidirectional. The result is
  -- `false` for the return value -1, when the edge id is unknown.
  unfoldable pub reverse_edge : Graph Json → ℕ → Graph Json × Bool
  reverse_edge g id = elim (lookup id g.edges) [
    | none ↦ (g, false)
    | some e ↦
        let status = record (e.status) { direction = 0 } in
        (record g { edges = insert id (record e { status = status }) g.edges }, true)
  ]

  -- `from` is among the neighbours that `to` has.
  abbrev pub has_way_back : Graph Json → ℕ → ℕ → ℕ → Bool
  has_way_back g from to level =
      let (near, found) = neighbors g to [] level in found && member from near

  -- `none` is a failed assertion.
  unfoldable pub add_edge : Graph Json → ℕ → ℕ → ℕ → List ℕ → Json → ℕ → Option (Graph Json × Bool)
  add_edge g id from to attr value level =
      if not (contains from g.nodes && contains to g.nodes)
      then none
      else if has_way_back g from to level
      then some (reverse_edge g id)
      else some (insert_edge g id from to attr value level, true)

  -- `eraseEdgeFrom(node)`.
  unfoldable pub unlink : ℕ → ℕ → List (ℕ × Node Json) → List (ℕ × Node Json)
  unfolding erase_from
  unlink id node m =
      let n = node_at node m in
      insert node (record n { edges = erase_from id max_layer_size n.edges }) m

  -- `mark` keeps the edge with its `del` bit set.
  unfoldable pub delete_edge : Graph Json → ℕ → Bool → Graph Json
  delete_edge g id mark =
      let e = edge_at id g.edges in
      let status = record (e.status) { hold = false; del = true } in
      record {
        nodes = unlink id e.second (unlink id e.first g.nodes);
        edges = if mark then insert id (record e { status = status }) g.edges else erase id g.edges;
      }

common : List ℕ → List ℕ → List ℕ
common [] ys = []
common (x ∷ xs) ys = if member x ys then x ∷ common xs ys else common xs ys

-- The loop of `getEdgeID` over the layers, from the top one down.
common_edge : ℕ → List (List ℕ) → List (List ℕ) → ℕ
unfolding common
common_edge zero from to = no_edge
common_edge (suc level) from to =
    let rest = common_edge level from to in
    elim (common (layer_of from level) (layer_of to level)) [ [] ↦ rest | x ∷ xs ↦ x ]

-- `none` is the exception of `std::map::at`.
unfoldable pub get_edge_id : {Json : Type 0} → Graph Json → ℕ → ℕ → Option ℕ
unfolding common_edge
get_edge_id g from to = do
  f ← lookup from g.nodes
  t ← lookup to g.nodes
  some (common_edge max_layer_size f.edges t.edges)
