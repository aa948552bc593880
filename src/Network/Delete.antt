-- ===== src/Network/Delete.antt =====
-- src/VirtualNetwork.cpp, `deleteEdge`: the lists of the nodes, the map of the edges, and the invariant.
use gqlite.Prelude.{
  ℕ, ◌≡◌, ap, ◌∙◌, Bool, true, false, ◌&&◌, ◌⊎◌, Option, none, some, arith, ◌==◌, ==_iff, ltb,
  if◌then◌else◌, Bool-cases, inl, inr,
}
use gqlite.Prelude.Eq.{nat_eq}
use gqlite.Prelude.Maps.{lookup, lookup-insert, lookup-erase}
use gqlite.Sorted.{member}
use gqlite.Graph.{Graph, Edge}
use gqlite.Network.{unlink, delete_edge, or_fresh_edge}
use gqlite.Network.Links.{
  layer_in, NodeMap, HasLayers, member-unlink, unlink-HasLayers, layer_in-beyond,
}
use gqlite.Network.WellFormed.{Incident, IsWellFormed}

module _ {Json : Type 0} (null : Json) (g : Graph Json) (w : IsWellFormed g) (id : ℕ)
    (e : Edge Json) (found : lookup id g.edges ≡ some e) where
  -- The node lists `id` in the layer of the edge only.
  only_layer : (n l : ℕ) → member id (layer_in g.nodes n l) ≡ true → l ≡ e.status.layer
  only_layer n l h = let (f, at, ends, layer) = w.linked n l id h in ground arith

  only_ends : (n l : ℕ) → member id (layer_in g.nodes n l) ≡ true → (e.first ≡ n) ⊎ (e.second ≡ n)
  only_ends n l h = let (f, at, ends, layer) = w.linked n l id h in ground arith

  abbrev once : NodeMap Json
  once = unlink null id e.first g.nodes

  once-HasLayers : HasLayers once
  once-HasLayers =
      unlink-HasLayers null g.nodes w.layered id e.first e.status.layer (only_layer e.first)

  member_once :
      (a n l : ℕ)
      → member a (layer_in once n l)
        ≡ (if e.first == n && (id == a && ltb l 4) then false else member a (layer_in g.nodes n l))
  member_once = member-unlink null g.nodes w.layered id e.first e.status.layer (only_layer e.first)

  only_once : (n l : ℕ) → member id (layer_in once n l) ≡ true → l ≡ e.status.layer
  only_once n l h = ground (arith, member_once id n l, only_layer n l)

  abbrev twice : NodeMap Json
  twice = unlink null id e.second once

  twice-HasLayers : HasLayers twice
  twice-HasLayers =
      unlink-HasLayers null once once-HasLayers id e.second e.status.layer (only_once e.second)

  not_beyond : (a n l : ℕ) → ltb l 4 ≡ false → member a (layer_in g.nodes n l) ≡ false
  unfolding member
  not_beyond a n l h = ground (arith, layer_in-beyond null g.nodes w.layered n l)

  -- After both calls exactly the deleted edge is gone from the lists of all nodes.
  member-twice :
      (a n l : ℕ)
      → member a (layer_in twice n l) ≡ (if id == a then false else member a (layer_in g.nodes n l))
  member-twice a n l = ground (
    arith,
    member-unlink null once once-HasLayers id e.second e.status.layer (only_once e.second) a n l,
    member_once a n l,
    not_beyond a n l,
    only_ends n l,
    ==_iff id a,
    Bool-cases (member a (layer_in g.nodes n l)),
  )

  module _ (mark : Bool) where
    abbrev removed : Graph Json
    removed = delete_edge null g id mark

    removed-nodes : removed.nodes ≡ twice
    unfolding delete_edge
    removed-nodes =
        ap
          (λ (o : Option (Edge Json)).
            unlink null id (or_fresh_edge null o).second
              (unlink null id (or_fresh_edge null o).first g.nodes))
          found

    -- Deleting an edge takes it, and no other edge, out of the lists of all nodes.
    pub member-delete_edge :
        (a n l : ℕ)
        → member a (layer_in removed.nodes n l)
          ≡ (if id == a then false else member a (layer_in g.nodes n l))
    member-delete_edge a n l =
        ap (λ (m : NodeMap Json). member a (layer_in m n l)) removed-nodes ∙ member-twice a n l

    -- After deleting an edge of a well-formed network, a marked edge is stored with its `del` bit set
    -- and an unmarked one is gone; the other edges are untouched.
    pub lookup-delete_edge :
        (a : ℕ)
        → lookup a removed.edges ≡ (
            if id == a
            then (if mark
                then some (record e { status = record (e.status) { hold = false; del = true } })
                else none)
            else lookup a g.edges)
    unfolding delete_edge
    lookup-delete_edge a = elim (Bool-cases mark) [
      | inl m ↦ ground (
        arith,
        lookup-insert id a (record e { status = record (e.status) { hold = false; del = true } })
            g.edges,
      )
      | inr m ↦ ground (arith, lookup-erase id a g.edges)
    ]

    kept : (n l a : ℕ) → id == a ≡ false → Incident g.edges n l a → Incident removed.edges n l a
    kept n l a other (f, at, ends, layer) = (f, ground (arith, lookup-delete_edge a), ends, layer)

    -- Deleting an edge of a well-formed network, with or without `mark`, leaves a well-formed network.
    pub delete_edge-IsWellFormed : IsWellFormed removed
    delete_edge-IsWellFormed = record {
      layered = rw removed-nodes twice-HasLayers;
      linked = λ n l a h. elim (Bool-cases (id == a)) [
        | inl same ↦ absurd (ground (arith, member-delete_edge a n l))
        | inr other ↦ kept n l a other (w.linked n l a (ground (arith, member-delete_edge a n l)))
      ];
      listed = λ a f h d. ground (
        arith,
        lookup-delete_edge a,
        w.listed a f,
        member-delete_edge a f.first f.status.layer,
        member-delete_edge a f.second f.status.layer,
      );
    }
