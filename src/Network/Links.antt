-- ===== src/Network/Links.antt =====
-- What `link` and `unlink` do to the edge lists of all nodes at once.
use gqlite.Prelude.{
  ℕ, ◌<◌, ◌≡◌, refl, ap, ◌∙◌, sym, true, false, ◌&&◌, ◌||◌, ◌≤◌, Option, none, some, List, [],
  arith, ltb, ◌==◌, ==_iff, if◌then◌else◌, length, set, length-set,
}
use gqlite.Prelude.Eq.{nat_eq}
use gqlite.Prelude.Maps.{lookup, insert, lookup-insert}
use gqlite.Sorted.{add_unique, member, member-add_unique, add_unique-IsSortedSet, IsSortedSet}
use gqlite.Graph.{Node, layers_of, layer_of, max_layer_size}
use gqlite.Network.{or_fresh, node_at, link, unlink, erase_from}
use gqlite.Network.Layers.{
  layer_of-set, layer_of-beyond, layer_of-replicate, AllSorted, OnlyAt, member-erase_from,
  sorted-erase_from, length-erase_from,
}

abbrev pub NodeMap : Type 0 → Type 0
NodeMap Json = List (ℕ × Node Json)

module _ {Json : Type 0} where
  -- The edges that node `n` lists in layer `l`; none if there is no such node.
  abbrev pub layer_in : NodeMap Json → ℕ → ℕ → List ℕ
  layer_in m n l = layers_of (lookup n m) l

  -- Every node has its four layers, each strictly ascending.
  pub record HasLayers (m : NodeMap Json) : Type 0 where
    pub four : (n : ℕ) (nd : Node Json) → lookup n m ≡ some nd → length nd.edges ≡ max_layer_size
    pub ascending : (n l : ℕ) → IsSortedSet (layer_in m n l)

module _ {Json : Type 0} (null : Json) where
  or_fresh-four :
      (o : Option (Node Json))
      → ((nd : Node Json) → o ≡ some nd → length nd.edges ≡ max_layer_size)
      → length (or_fresh null o).edges ≡ max_layer_size
  or_fresh-four none h = refl
  or_fresh-four (some nd) h = h nd refl

  or_fresh-layer :
      (o : Option (Node Json)) (l : ℕ) → layer_of (or_fresh null o).edges l ≡ layers_of o l
  or_fresh-layer none l = layer_of-replicate 4 l
  or_fresh-layer (some nd) l = refl

module _ {Json : Type 0} (null : Json) (m : NodeMap Json) (h : HasLayers m) where
  node_at-four : (n : ℕ) → length (node_at null n m).edges ≡ 4
  node_at-four n = or_fresh-four null (lookup n m) (h.four n)

  node_at-layer : (n l : ℕ) → layer_of (node_at null n m).edges l ≡ layer_in m n l
  node_at-layer n l = or_fresh-layer null (lookup n m) l

  -- Writing the layers of one node, created if it is missing.
  abbrev pub write : ℕ → List (List ℕ) → NodeMap Json
  write node layers = insert node (record (node_at null node m) { edges = layers }) m

  pub layer_in-write :
      (node n l : ℕ) (layers : List (List ℕ))
      → layer_in (write node layers) n l ≡ (if node == n then layer_of layers l else layer_in m n l)
  layer_in-write node n l layers =
      ground (arith, lookup-insert node n (record (node_at null node m) { edges = layers }) m)

  pub write-HasLayers :
      (node : ℕ) (layers : List (List ℕ))
      → length layers ≡ 4
      → AllSorted layers
      → HasLayers (write node layers)
  write-HasLayers node layers len sorted = record {
    four = λ n nd e. ground (
      arith,
      lookup-insert node n (record (node_at null node m) { edges = layers }) m,
      h.four n nd,
    );
    ascending = λ n l. ground (arith, layer_in-write node n l layers, sorted l, h.ascending n l);
  }

  -- There is no fifth layer.
  pub layer_in-beyond : (n l : ℕ) → 4 ≤ l → layer_in m n l ≡ []
  layer_in-beyond n l le =
      sym (node_at-layer n l)
      ∙ layer_of-beyond (node_at null n m).edges l (omega (arith, node_at-four n))

  pub layer_in-link :
      (id level node n l : ℕ)
      → level < 4
      → layer_in (link null id level node m) n l ≡ (
          if node == n && level == l
          then (add_unique (layer_in m node level) id).0
          else layer_in m n l)
  unfolding link
  layer_in-link id level node n l lt = ground (
    arith,
    layer_in-write node n l (
        set (node_at null node m).edges level
          (add_unique (layer_of (node_at null node m).edges level) id).0),
    ==_iff node n,
    node_at-four node,
    node_at-layer node level,
    node_at-layer node l,
    layer_of-set (node_at null node m).edges level l
        (add_unique (layer_of (node_at null node m).edges level) id).0,
  )

  pub link-HasLayers : (id level node : ℕ) → level < 4 → HasLayers (link null id level node m)
  unfolding link
  link-HasLayers id level node lt =
      let v = (add_unique (layer_of (node_at null node m).edges level) id).0 in
      let layers = set (node_at null node m).edges level v in
      write-HasLayers node layers (length-set _ level v ∙ node_at-four node) λ l. ground (
        arith,
        layer_of-set (node_at null node m).edges level l v,
        node_at-four node,
        node_at-layer node level,
        node_at-layer node l,
        add_unique-IsSortedSet (layer_in m node level) id (h.ascending node level),
        h.ascending node l,
      )

  -- A node lists the new edge beside its old ones; the other nodes are as they were.
  pub member-link :
      (id level node a n l : ℕ)
      → level < 4
      → member a (layer_in (link null id level node m) n l)
        ≡ ((node == n && (level == l && id == a)) || member a (layer_in m n l))
  member-link id level node a n l lt = ground (
    arith,
    layer_in-link id level node n l lt,
    member-add_unique (layer_in m node level) id a,
    ==_iff node n,
    ==_iff level l,
  )

  module _ (id node at : ℕ) (only : (l : ℕ) → member id (layer_in m node l) ≡ true → l ≡ at) where
    node_at-AllSorted : AllSorted (node_at null node m).edges
    node_at-AllSorted l = rw (node_at-layer node l) (h.ascending node l)

    node_at-OnlyAt : OnlyAt id at (node_at null node m).edges
    node_at-OnlyAt l e = only l (ap (member id) (sym (node_at-layer node l)) ∙ e)

    pub member-unlink :
        (a n l : ℕ)
        → member a (layer_in (unlink null id node m) n l)
          ≡ (if node == n && (id == a && ltb l 4) then false else member a (layer_in m n l))
    unfolding unlink
    member-unlink a n l = ground (
      arith,
      layer_in-write node n l (erase_from id 4 (node_at null node m).edges),
      member-erase_from id a at l (node_at null node m).edges node_at-AllSorted node_at-OnlyAt 4
          (omega (arith, node_at-four node)),
      node_at-layer node l,
      ==_iff node n,
    )

    pub unlink-HasLayers : HasLayers (unlink null id node m)
    unfolding unlink
    unlink-HasLayers =
        write-HasLayers node (erase_from id 4 (node_at null node m).edges)
          (length-erase_from id 4 (node_at null node m).edges ∙ node_at-four node)
          λ l.
            sorted-erase_from id 0 at l (node_at null node m).edges node_at-AllSorted node_at-OnlyAt
              4 (omega (arith, node_at-four node))
