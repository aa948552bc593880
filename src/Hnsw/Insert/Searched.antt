-- ===== src/Hnsw/Insert/Searched.antt =====
-- src/operand/query/HNSW.cpp: what the searches of an insertion find in a well-formed network.
use gqlite.Prelude.{
  ℕ, suc, ◌+◌, ◌≤◌, ◌≡◌, refl, ap, ◌∙◌, sym, true, false, ◌⊎◌, some, List, [], ◌∷◌, ◌==◌, arith,
  length, if◌then◌else◌, Bool-cases, All, inl, inr,
}
use gqlite.Prelude.Eq.{nat_eq}
use gqlite.Prelude.Maps.{lookup, contains}
use gqlite.Sorted.{add_unique, member, member-add_unique}
use gqlite.Graph.{Graph, Node, node_size, neighbors, others, far_end, layer_of}
use gqlite.Network.WellFormed.{IsWellFormed}
use gqlite.Network.Neighbors.{neighbors_sound}
use gqlite.Hnsw.{Detail, Metric, entry}
use gqlite.Hnsw.Layers.{entry_lem}
use gqlite.Hnsw.Reach.{Reaches, query_layer-Reaches, All-add_unique}
use gqlite.Hnsw.Ends.{query_layer-ends}
use gqlite.Hnsw.Insert.{Index, set_of, ids_of, id2vector, neighborhood, search, select_neighbors}
use gqlite.Hnsw.Insert.Clipped.{contains_listed}

member-others :
    {D : Type 0} (id a : ℕ) (m : List (ℕ × Node D)) (acc : List ℕ)
    → member a (others id m acc) ≡ true
    → (member a acc ≡ true) ⊎ (contains a m ≡ true)
unfolding others contains lookup
member-others id a [] acc h = inl h
member-others id a ((k, v) ∷ m) acc h =
    elim (member-others id a m (if k == id then acc else (add_unique acc k).0) h) [
      | inl p ↦ elim (Bool-cases (k == a)) [
        | inl e ↦ inr (ground (arith, e))
        | inr e ↦ inl (ground (arith, p, e, member-add_unique acc k a))
      ]
      | inr p ↦ inr (ground (arith, p))
    ]

no_nodes : {D : Type 0} (m : List (ℕ × Node D)) (a : ℕ) → length m ≡ 0 → contains a m ≡ false
unfolding contains lookup
no_nodes [] a h = refl
no_nodes (x ∷ m) a h = absurd (omega arith)

module _ {D : Type 0} (g : Graph D) (w : IsWellFormed g) where
  contains_far :
      (id level a : ℕ)
      → (neighbors g id [] level).1 ≡ true
      → member a (neighbors g id [] level).0 ≡ true
      → contains a g.nodes ≡ true
  unfolding far_end
  contains_far id level a found h =
      let (edge, e, at, live, ends, layer, far) = neighbors_sound g w id level a found h in
      let (first, second) = w.listed edge e at live in
      ground (
        arith,
        contains_listed g.nodes e.first e.status.layer edge first,
        contains_listed g.nodes e.second e.status.layer edge second,
        far,
      )

  not_found :
      (id level : ℕ)
      → (neighbors g id [] level).1 ≡ false
      → (neighbors g id [] level).0 ≡ others id g.nodes []
  unfolding neighbors
  not_found id level h = ground (arith, h)

  -- What `neighbors` answers are nodes, whether the node has neighbours or not.
  contains-neighbors :
      (id level a : ℕ) → member a (neighbors g id [] level).0 ≡ true → contains a g.nodes ≡ true
  unfolding member
  contains-neighbors id level a h = elim (Bool-cases (neighbors g id [] level).1) [
    | inl e ↦ contains_far id level a e h
    | inr e ↦
        elim (member-others id a g.nodes [] (ap (member a) (sym (not_found id level e)) ∙ h)) [
          | inl p ↦ absurd (ground (arith, p))
          | inr p ↦ p
        ]
  ]

  contains-neighborhood :
      (disk : ℕ → ℕ → List ℕ) (layer m n : ℕ)
      → contains m g.nodes ≡ true
      → member n (neighborhood disk g layer m) ≡ true
      → contains n g.nodes ≡ true
  unfolding neighborhood node_size
  contains-neighborhood disk layer m n hm hn = elim (Bool-cases (length g.nodes == 0)) [
    | inl e ↦ absurd (ground (arith, no_nodes g.nodes m, e, hm))
    | inr e ↦ contains-neighbors m layer n (ground (arith, e, hn))
  ]

Reaches-closed :
    (neighborhood : ℕ → List ℕ) (P : ℕ → Type 0) (ep n : ℕ)
    → P ep
    → ((a b : ℕ) → P a → member b (neighborhood a) ≡ true → P b)
    → Reaches neighborhood ep n
    → P n
Reaches-closed neighborhood P ep n p closed (Reaches.here) = p
Reaches-closed neighborhood P ep n p closed (Reaches.onward a b r h) =
    closed a b (Reaches-closed neighborhood P ep a p closed r) h

All-ids_of :
    {D : Type 0} (P Q : ℕ → Type 0) (ds : List (Detail D))
    → ((n : ℕ) → P n → Q n)
    → All (λ (d : Detail D). P d.0) ds
    → All Q (ids_of ds)
unfolding ids_of
All-ids_of P Q [] f h = tt
All-ids_of P Q ((n, _) ∷ ds) f (p, h) = (f n p, All-ids_of P Q ds f h)

length-ids_of : {D : Type 0} (ds : List (Detail D)) → length (ids_of ds) ≡ length ds
unfolding ids_of
length-ids_of [] = refl
length-ids_of ((n, _) ∷ ds) = omega (arith, length-ids_of ds)

length-add_unique : (xs : List ℕ) (n : ℕ) → length (add_unique xs n).0 ≤ length xs + 1
unfolding add_unique
length-add_unique [] n = omega arith
length-add_unique (x ∷ xs) n = ground (arith, length-add_unique xs n)

length-set_of : (xs : List ℕ) → length (set_of xs) ≤ length xs
unfolding set_of
length-set_of [] = omega arith
length-set_of (x ∷ xs) = omega (arith, length-add_unique (set_of xs) x, length-set_of xs)

All-set_of : (P : ℕ → Type 0) (xs : List ℕ) → All P xs → All P (set_of xs)
unfolding set_of
All-set_of P [] h = tt
All-set_of P (x ∷ xs) (p, h) = All-add_unique P (set_of xs) x p (All-set_of P xs h)

module _ {D : Type 0} (M : Metric D) (zero_d : D) (disk : ℕ → ℕ → List ℕ) (m ef : ℕ)
    (nodes : List ℕ) (ix : Index D) (w : IsWellFormed ix.network)
    (same : (n : ℕ) → contains n ix.network.nodes ≡ member n nodes) where
  abbrev IsNode : ℕ → Type 0
  IsNode n = member n nodes ≡ true

  closed :
      (layer a b : ℕ) → IsNode a → member b (neighborhood disk ix.network layer a) ≡ true → IsNode b
  closed layer a b h k =
      sym (same b) ∙ contains-neighborhood ix.network w disk layer a b (same a ∙ h) k

  -- A search from a node finds nodes, no more than there are.
  pub search_lem :
      (vec : List D) (ep count layer : ℕ)
      → IsNode ep
      → let ns =
          ids_of (search M zero_d disk m ef (suc (suc (length nodes))) ix vec ep count layer) in
        All IsNode ns × (length ns ≤ length nodes)
  unfolding search
  search_lem vec ep count layer h =
      let near = neighborhood disk ix.network layer in
      let fuel = suc (suc (length nodes)) in
      let vector = id2vector ix.vectors in
      let ends = query_layer-ends M vector near vec count ep nodes h (closed layer) in
      let reached = query_layer-Reaches M vector near vec count fuel ep in
      (
        All-ids_of (Reaches near ep) IsNode _
            (λ n r. Reaches-closed near IsNode ep n h (closed layer) r) reached,
        omega (arith, ends.1, length-ids_of (search M zero_d disk m ef fuel ix vec ep count layer)),
      )

  module _ (cached : (l n : ℕ) → member n (layer_of ix.cache l) ≡ true → IsNode n) where
    pub entry-IsNode : (l ep : ℕ) → entry ix.cache ≡ some (l, ep) → IsNode ep
    unfolding member
    entry-IsNode l ep e =
        let (rest, first, above) = (entry_lem ix.cache).0 l ep e in
        cached l ep (ap (member ep) first ∙ ground (arith))

    -- The neighbours that are selected are nodes, no more than there are.
    pub select_lem :
        (vec : List D) (count l ep : ℕ)
        → entry ix.cache ≡ some (l, ep)
        → (ns : List ℕ) × (select_neighbors M zero_d disk m ef
              (suc (suc (length nodes)))
              ix
              vec
              count
            ≡ some ns)
          × All IsNode ns
          × (length ns ≤ length nodes)
    unfolding select_neighbors
    select_lem vec count l ep e =
        let found =
          ids_of (search M zero_d disk m ef (suc (suc (length nodes))) ix vec ep count l) in
        let p = search_lem vec ep count l (entry-IsNode l ep e) in
        (
          set_of found,
          rw (e, select_neighbors) refl,
          All-set_of IsNode found p.0,
          omega (arith, length-set_of found, p.1),
        )
