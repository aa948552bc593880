-- ===== src/Hnsw/Insert/Clipped.antt =====
-- src/operand/query/HNSW.cpp: `clipEdgeThenKeepNeighborSize` on a well-formed network.
use gqlite.Prelude.{
  ℕ, ◌≡◌, refl, ap, ◌∙◌, Bool, true, false, ◌||◌, ◌⊎◌, Option, none, some, List, [], ◌∷◌, ◌==◌,
  ==_iff, arith, leb, length, if◌then◌else◌, Option-cases, Bool-cases, All, inl, inr,
}
use gqlite.Prelude.Eq.{nat_eq}
use gqlite.Prelude.Maps.{lookup, contains, contains-insert, length-insert_old}
use gqlite.Sorted.{member}
use gqlite.Graph.{Graph, Node, Edge, edges_of, edge_info, layers_of, layer_of}
use gqlite.Network.{delete_edge, unlink, no_edge, or_fresh_edge}
use gqlite.Network.Links.{layer_in}
use gqlite.Network.WellFormed.{IsWellFormed}
use gqlite.Network.Delete.{lookup-delete_edge, delete_edge-IsWellFormed}
use gqlite.Hnsw.{farthest, distance_of, clip}
use gqlite.Hnsw.Reach.{All-member}
use gqlite.Hnsw.Insert.Joined.{IsLive, Extends, Extends-refl, IsJoined}

contains-unlink :
    {D : Type 0} (zero_d : D) (id node n : ℕ) (nodes : List (ℕ × Node D))
    → contains n (unlink zero_d id node nodes) ≡ (node == n || contains n nodes)
unfolding unlink
contains-unlink zero_d id node n nodes = contains-insert node n _ nodes

length-unlink :
    {D : Type 0} (zero_d : D) (id node : ℕ) (nodes : List (ℕ × Node D))
    → contains node nodes ≡ true
    → length (unlink zero_d id node nodes) ≡ length nodes
unfolding unlink
length-unlink zero_d id node nodes h = length-insert_old node _ nodes h

-- A node that lists an edge is in the map.
pub contains_listed :
    {D : Type 0} (nodes : List (ℕ × Node D)) (n l a : ℕ)
    → member a (layer_in nodes n l) ≡ true
    → contains n nodes ≡ true
unfolding contains member
contains_listed nodes n l a h = elim (Option-cases (lookup n nodes)) [
  | inl e ↦ absurd (ground (arith, e, h))
  | inr (nd, e) ↦ ground (arith, e)
]

-- A payload that is a distance.
abbrev pub HasDistance : {D : Type 0} → Option D → Type 0
HasDistance {D} o = (d : D) × (o ≡ some d)

module _ {D : Type 0} (less : D → D → Bool) (zero_d : D) (g : Graph (Option D))
    (w : IsWellFormed g) where
  abbrev Known : ℕ → Type 0
  Known id = (e : Edge (Option D)) × (lookup id g.edges ≡ some e) × HasDistance e.info

  farthest_lem :
      (ids : List ℕ) (f : D) (eid : ℕ)
      → All Known ids
      → (eid ≡ no_edge) ⊎ Known eid
      → (r : D × ℕ) × (farthest less (λ id. distance_of (edge_info g id)) f eid ids ≡ some r)
        × ((r.1 ≡ no_edge) ⊎ Known r.1)
  unfolding farthest edge_info
  farthest_lem [] f eid h k = ((f, eid), refl, k)
  farthest_lem (id ∷ ids) f eid ((e, found, (d, weight)), h) k = elim (Bool-cases (less d f)) [
    | inl q ↦
        let (r, p, t) = farthest_lem ids f eid h k in
        (r, rw (found, farthest) (rw (weight, farthest) (rw (q, farthest) p)), t)
    | inr q ↦
        let (r, p, t) = farthest_lem ids d id h (inr (e, found, (d, weight))) in
        (r, rw (found, farthest) (rw (weight, farthest) (rw (q, farthest) p)), t)
  ]

  -- Deleting an edge that is not marked leaves the nodes, and makes no new edge.
  deleted-Extends :
      (id any : ℕ) (e : Edge (Option D))
      → IsLive HasDistance g
      → lookup id g.edges ≡ some e
      → Extends HasDistance g (delete_edge none g id false) any
  deleted-Extends id any e live found =
      let ends = w.listed id e found ((live id e found).0) in
      let first = contains_listed g.nodes e.first e.status.layer id ends.0 in
      let second = contains_listed g.nodes e.second e.status.layer id ends.1 in
      record {
        same_nodes = λ n.
            (unfold delete_edge in
              ground (
                arith,
                found,
                first,
                second,
                ==_iff e.first n,
                ==_iff e.second n,
                contains-unlink none id e.second n (unlink none id e.first g.nodes),
                contains-unlink none id e.first n g.nodes,
              ));
        other_edges = λ a ne q. ground (arith, lookup-delete_edge none g w id e found false a, q);
        live = λ l a f q. l a f (ground (arith, lookup-delete_edge none g w id e found false a, q));
        size =
            (let once = unlink none id e.first g.nodes in
              let s1 : length once ≡ length g.nodes = length-unlink none id e.first g.nodes first in
              let there : contains e.second once ≡ true =
                contains-unlink none id e.first e.second g.nodes ∙ ground (arith, second) in
              let s2 : length (unlink none id e.second once) ≡ length once =
                length-unlink none id e.second once there in
              let n : (delete_edge none g id false).nodes ≡ unlink none id e.second once =
                unfold delete_edge in
                ap
                  (λ (o : Option (Edge (Option D))).
                    unlink none id (or_fresh_edge none o).second
                      (unlink none id (or_fresh_edge none o).first g.nodes))
                  found in
              ap length n ∙ (s2 ∙ s1));
      }

  chosen :
      (ids : List ℕ) (max : ℕ)
      → All Known ids
      → (r : D × ℕ) × ((if leb max (length ids)
            then farthest less (λ id. distance_of (edge_info g id)) zero_d no_edge ids
            else some (zero_d, no_edge))
          ≡ some r)
        × ((r.1 ≡ no_edge) ⊎ Known r.1)
  chosen ids max h = elim (Bool-cases (leb max (length ids))) [
    | inl q ↦ rw q (farthest_lem ids zero_d no_edge h (inl refl))
    | inr q ↦ ((zero_d, no_edge), rw q refl, inl refl)
  ]

  abbrev clipped : ℕ → Graph (Option D)
  clipped id = if id == no_edge then g else delete_edge none g id false

  clipped-IsJoined :
      (id any : ℕ)
      → IsLive HasDistance g
      → (id ≡ no_edge) ⊎ Known id
      → IsJoined HasDistance g (clipped id) any
  clipped-IsJoined id any live k = elim (Bool-cases (id == no_edge)) [
    | inl q ↦ rw q (record { well_formed = w; extends = Extends-refl HasDistance g any })
    | inr q ↦ elim k [
      | inl e ↦ absurd (ground (arith, e, q))
      | inr (e, found, _) ↦ rw q (record {
        well_formed = delete_edge-IsWellFormed none g w id e found false;
        extends = deleted-Extends id any e live found;
      })
    ]
  ]

  clip_step :
      (node level max : ℕ) (ids : List ℕ) (r : D × ℕ)
      → edges_of g node level ≡ some ids
      → (if leb max (length ids)
          then farthest less (λ id. distance_of (edge_info g id)) zero_d no_edge ids
          else some (zero_d, no_edge))
        ≡ some r
      → clip less zero_d g node level max ≡ some (clipped r.1)
  unfolding clip
  clip_step node level max ids r p q = rw (p, clip) (rw q refl)

  -- Clipping a node of the network succeeds, and keeps the network well-formed.
  pub clip_lem :
      (node level max any : ℕ)
      → IsLive HasDistance g
      → contains node g.nodes ≡ true
      → (k : Graph (Option D)) × (clip less zero_d g node level max ≡ some k)
        × IsJoined HasDistance g k any
  unfolding edges_of contains
  clip_lem node level max any live there = elim (Option-cases (lookup node g.nodes)) [
    | inl e ↦ absurd (ground (arith, e, there))
    | inr (nd, e) ↦
        let ids = layer_of nd.edges level in
        let listed : (a : ℕ) → member a ids ≡ true → Known a = λ a h.
          (let same : layer_in g.nodes node level ≡ ids = ap (λ o. layers_of o level) e in
            let (f, at, ends, layer) = w.linked node level a (rw same h) in
            (f, at, (live a f at).1)) in
        let (r, p, q) = chosen ids max (All-member Known ids listed) in
        (
          clipped r.1,
          clip_step node level max ids r (ground (arith, e)) p,
          clipped-IsJoined r.1 any live q,
        )
  ]
