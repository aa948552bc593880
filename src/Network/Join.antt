-- ===== src/Network/Join.antt =====
-- src/VirtualNetwork.cpp, `addEdge`: one direction, then the other.
use gqlite.Prelude.{
  length, ℕ, ◌<◌, ◌≡◌, ◌≢◌, refl, true, false, ◌||◌, ◌⊎◌, none, some, List, [], arith, ◌==◌, inl,
  inr,
}
use gqlite.Prelude.Eq.{nat_eq}
use gqlite.Prelude.Maps.{
  lookup, insert, contains, contains-insert, length-insert_old, lookup-insert_self,
}
use gqlite.Sorted.{member}
use gqlite.Graph.{Graph, Edge, neighbors, far_end}
use gqlite.Network.{add_edge, insert_edge, reverse_edge, has_way_back, link}
use gqlite.Network.Links.{NodeMap}
use gqlite.Network.WellFormed.{
  IsWellFormed, lookup_after, inserted, insert_edge-IsWellFormed, redirect-IsWellFormed,
}
use gqlite.Network.Neighbors.{neighbors_complete}

pub contains-link :
    {Json : Type 0} (null : Json) (id level node n : ℕ) (m : NodeMap Json)
    → contains n (link null id level node m) ≡ (node == n || contains n m)
unfolding link
contains-link null id level node n m = contains-insert node n _ m

pub length-link :
    {Json : Type 0} (null : Json) (id level node : ℕ) (m : NodeMap Json)
    → contains node m ≡ true
    → length (link null id level node m) ≡ length m
unfolding link
length-link null id level node m h = length-insert_old node _ m h

module _ {Json : Type 0} (null : Json) (g : Graph Json) (w : IsWellFormed g) (id from to level : ℕ)
    (attr : List ℕ) (value : Json) (fresh : lookup id g.edges ≡ none) (lt : level < 4)
    (has_from : contains from g.nodes ≡ true) (has_to : contains to g.nodes ≡ true)
    (one_way : has_way_back null g from to level ≡ false) where
  abbrev pub there : Graph Json
  there = insert_edge null g id from to attr value level

  pub add_there : add_edge null g id from to attr value level ≡ some (there, true)
  unfolding add_edge
  add_there = ground arith

  pub there-IsWellFormed : IsWellFormed there
  there-IsWellFormed = insert_edge-IsWellFormed null g w id from to level attr value fresh lt

  abbrev pub edge : Edge Json
  edge = inserted null g w id from to level attr value fresh lt

  found_there : lookup id there.edges ≡ some edge
  found_there = ground (arith, lookup_after null g w id from to level attr value fresh lt id)

  -- One call makes `to` a neighbour of `from`.
  seen_there :
      ((neighbors there from [] level).1 ≡ true)
      × (member to (neighbors there from [] level).0 ≡ true)
  unfolding far_end
  seen_there =
      neighbors_complete there there-IsWellFormed from level id edge found_there refl (omega arith)
        (inl refl)

  way_back : has_way_back null there to from level ≡ true
  way_back = ground (arith, seen_there)

  contains_there : (n : ℕ) → contains n g.nodes ≡ true → contains n there.nodes ≡ true
  unfolding insert_edge
  contains_there n h = ground (
    arith,
    contains-link null id level to n (link null id level from g.nodes),
    contains-link null id level from n g.nodes,
  )

  abbrev pub joined_edge : Edge Json
  joined_edge = record edge { status = record (edge.status) { direction = 0 } }

  abbrev pub joined : Graph Json
  joined = record there { edges = insert id joined_edge there.edges }

  reverse_there : reverse_edge null there id ≡ (joined, true)
  unfolding reverse_edge
  reverse_there = rw (found_there, reverse_edge) refl

  pub add_back : add_edge null there id to from attr value level ≡ some (joined, true)
  unfolding add_edge
  add_back =
      ground
        (arith, way_back, contains_there from has_from, contains_there to has_to, reverse_there)

  pub joined-IsWellFormed : IsWellFormed joined
  joined-IsWellFormed =
      redirect-IsWellFormed null there there-IsWellFormed id edge found_there joined_edge.status
        refl refl

  sees :
      (n a : ℕ)
      → (edge.first ≡ n) ⊎ (edge.second ≡ n)
      → far_end n joined_edge ≡ a
      → member a (neighbors joined n [] level).0 ≡ true
  sees n a ends far = ground (
    arith,
    neighbors_complete joined joined-IsWellFormed n level id joined_edge
        (lookup-insert_self id joined_edge there.edges) refl (omega arith) ends,
  )

  -- In a well-formed network with the two different nodes, where the source is not among the target's
  -- neighbours, adding a new edge id in one direction and then in the other succeeds twice, makes each
  -- node a neighbour of the other, and keeps the network well-formed.
  pub add_edge_both_ways :
      from ≢ to
      → (h : Graph Json) × (k : Graph Json) × (add_edge null g id from to attr value level
          ≡ some (h, true))
        × (add_edge null h id to from attr value level ≡ some (k, true))
        × (member to (neighbors k from [] level).0 ≡ true)
        × (member from (neighbors k to [] level).0 ≡ true)
        × IsWellFormed k
  unfolding far_end
  add_edge_both_ways apart = (
    there,
    joined,
    add_there,
    add_back,
    sees from to (inl refl) (ground arith),
    sees to from (inr refl) (ground arith),
    joined-IsWellFormed,
  )
