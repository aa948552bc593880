-- ===== src/Network/Preserved.antt =====
-- src/VirtualNetwork.cpp, `addNode` and `addEdge`, and the invariant.
use gqlite.Prelude.{
  ℕ, ◌<◌, ◌≡◌, refl, ap, ◌∙◌, sym, Bool, true, false, ◌⊎◌, leb, none, some, List, [], arith, ==_iff,
  if◌then◌else◌, Option-cases, inl, inr, replicate,
}
use gqlite.Prelude.Eq.{nat_eq}
use gqlite.Prelude.Maps.{lookup, insert, lookup-insert}
use gqlite.Sorted.{member}
use gqlite.Graph.{Graph, Node, size}
use gqlite.Network.Layers.{layer_of-replicate}
use gqlite.Network.{new_node, put_node, has_way_back, reverse_edge, add_node, add_edge, insert_edge}
use gqlite.Network.Links.{layer_in, HasLayers}
use gqlite.Network.WellFormed.{IsWellFormed, insert_edge-IsWellFormed, redirect-IsWellFormed}

if_same {ℓ} : {A : Type ℓ} (b : Bool) (x : A) → (if b then x else x) ≡ x
if_same true x = refl
if_same false x = refl

-- Whether the memory limit is met does not matter: `clean` finds nothing to remove.
pub add_node-put_node :
    {Json : Type 0} (null : Json) (max_memory : ℕ) (g : Graph Json) (id level : ℕ) (attr : List ℕ)
    (value : Json)
    → add_node null max_memory g id attr value level ≡ put_node null g id attr value level
unfolding add_node
add_node-put_node null max_memory g id level attr value =
    ap (λ (h : Graph _). put_node null h id attr value level) (if_same (leb max_memory (size g)) g)

module _ {Json : Type 0} (null : Json) (g : Graph Json) (w : IsWellFormed g) where
  layer_in-new :
      (id : ℕ) (nd : Node Json) (n l : ℕ)
      → lookup id g.nodes ≡ none
      → nd.edges ≡ replicate 4 []
      → layer_in (insert id nd g.nodes) n l ≡ layer_in g.nodes n l
  layer_in-new id nd n l missing empty =
      ground (arith, lookup-insert id n nd g.nodes, ==_iff id n, layer_of-replicate 4 l)

  new-HasLayers :
      (id : ℕ) (nd : Node Json)
      → lookup id g.nodes ≡ none
      → nd.edges ≡ replicate 4 []
      → HasLayers (insert id nd g.nodes)
  new-HasLayers id nd missing empty = record {
    four = λ n found e. ground (arith, lookup-insert id n nd g.nodes, w.layered.four n found);
    ascending = λ n l. rw (layer_in-new id nd n l missing empty) (w.layered.ascending n l);
  }

  put_node-IsWellFormed :
      (id level : ℕ) (attr : List ℕ) (value : Json)
      → IsWellFormed (put_node null g id attr value level)
  unfolding put_node
  put_node-IsWellFormed id level attr value = elim (Option-cases (lookup id g.nodes)) [
    | inr (n, e) ↦ rw (e, put_node) w
    | inl e ↦
        rw (e, put_node)
          (record {
            layered = new-HasLayers id (new_node null attr value level) e refl;
            linked = λ n l a h. w.linked n l a (
                ap (member a) (sym (layer_in-new id (new_node null attr value level) n l e refl))
                ∙ h);
            listed = λ a f h d. ground (
              arith,
              w.listed a f,
              layer_in-new id (new_node null attr value level) f.first f.status.layer e refl,
              layer_in-new id (new_node null attr value level) f.second f.status.layer e refl,
            );
          })
  ]

  -- `addNode` keeps the network well-formed, whatever the memory limit.
  pub add_node-IsWellFormed :
      (max_memory id level : ℕ) (attr : List ℕ) (value : Json)
      → IsWellFormed (add_node null max_memory g id attr value level)
  add_node-IsWellFormed max_memory id level attr value =
      rw add_node-put_node (put_node-IsWellFormed id level attr value)

  add_edge-cases :
      (id from to level : ℕ) (attr : List ℕ) (value : Json) (h : Graph Json) (done : Bool)
      → add_edge null g id from to attr value level ≡ some (h, done)
      → (h ≡ (reverse_edge null g id).0)
        ⊎ ((h ≡ insert_edge null g id from to attr value level)
            × (has_way_back null g from to level ≡ false))
  unfolding add_edge
  add_edge-cases id from to level attr value h done e = ground arith

  reverse_edge-IsWellFormed : (id : ℕ) → IsWellFormed (reverse_edge null g id).0
  unfolding reverse_edge
  reverse_edge-IsWellFormed id = elim (Option-cases (lookup id g.edges)) [
    | inl e ↦ rw (e, reverse_edge) w
    | inr (f, e) ↦
        rw (e, reverse_edge)
          (redirect-IsWellFormed null g w id f e (record (f.status) { direction = 0 }) refl refl)
  ]

  -- `addEdge` keeps the network well-formed, for a level below 4 and an edge id that is new unless the
  -- source is among the target's neighbours already.
  pub add_edge-IsWellFormed :
      (id from to level : ℕ) (attr : List ℕ) (value : Json) (h : Graph Json) (done : Bool)
      → level < 4
      → (has_way_back null g from to level ≡ false → lookup id g.edges ≡ none)
      → add_edge null g id from to attr value level ≡ some (h, done)
      → IsWellFormed h
  add_edge-IsWellFormed id from to level attr value h done lt fresh e =
      elim (add_edge-cases id from to level attr value h done e) [
        | inl same ↦ rw same (reverse_edge-IsWellFormed id)
        | inr (same, new) ↦
            rw same (insert_edge-IsWellFormed null g w id from to level attr value (fresh new) lt)
      ]
