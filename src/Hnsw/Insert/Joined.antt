-- ===== src/Hnsw/Insert/Joined.antt =====
-- src/operand/query/HNSW.cpp: the two calls of `addEdge`, one for each direction.
use gqlite.Prelude.{
  length, ℕ, ◌<◌, ◌≡◌, ◌≢◌, refl, ◌∙◌, Bool, true, false, none, some, [], ◌==◌, ==_iff, arith,
  Bool-cases, inl, inr,
}
use gqlite.Prelude.Eq.{nat_eq}
use gqlite.Prelude.Maps.{lookup, contains, lookup-insert}
use gqlite.Graph.{Graph, Edge}
use gqlite.Network.{add_edge, insert_edge, reverse_edge, has_way_back, link}
use gqlite.Network.WellFormed.{IsWellFormed, lookup_after}
use gqlite.Network.Join.{
  contains-link, length-link, there, joined, joined_edge, add_there, add_back, there-IsWellFormed,
  joined-IsWellFormed,
}
use gqlite.Hnsw.Insert.{join}

module _ {D : Type 0} where
  -- No edge is marked as deleted, and the payloads are as `P` says.
  abbrev pub IsLive : (D → Type 0) → Graph D → Type 0
  IsLive P g = (a : ℕ) (e : Edge D) → lookup a g.edges ≡ some e → (e.status.del ≡ false) × P e.info

  -- The same nodes, no new edge but perhaps `id`, and no mark.
  pub record Extends (P : D → Type 0) (g k : Graph D) (id : ℕ) : Type 0 where
    pub same_nodes : (n : ℕ) → contains n k.nodes ≡ contains n g.nodes
    pub other_edges : (a : ℕ) → a ≢ id → lookup a g.edges ≡ none → lookup a k.edges ≡ none
    pub live : IsLive P g → IsLive P k
    pub size : length k.nodes ≡ length g.nodes

  pub Extends-refl : (P : D → Type 0) (g : Graph D) (id : ℕ) → Extends P g g id
  Extends-refl P g id = record {
    same_nodes = λ n. refl;
    other_edges = λ a ne h. h;
    live = λ h. h;
    size = refl;
  }

  pub Extends-trans :
      (P : D → Type 0) (g h k : Graph D) (id : ℕ)
      → Extends P g h id
      → Extends P h k id
      → Extends P g k id
  Extends-trans P g h k id p q = record {
    same_nodes = λ n. q.same_nodes n ∙ p.same_nodes n;
    other_edges = λ a ne e. q.other_edges a ne (p.other_edges a ne e);
    live = λ l. q.live (p.live l);
    size = q.size ∙ p.size;
  }

  pub record IsJoined (P : D → Type 0) (g k : Graph D) (id : ℕ) : Type 0 where
    pub well_formed : IsWellFormed k
    pub extends : Extends P g k id

module _ {D : Type 0} (zero_d : D) (P : D → Type 0) where
  insert_edge-Extends :
      (g : Graph D) (w : IsWellFormed g) (id from to level : ℕ) (value : D)
      → P value
      → lookup id g.edges ≡ none
      → level < 4
      → contains from g.nodes ≡ true
      → contains to g.nodes ≡ true
      → Extends P g (insert_edge zero_d g id from to [] value level) id
  insert_edge-Extends g w id from to level value pv fresh lt hf ht = record {
    same_nodes = λ n.
        (unfold insert_edge in
          ground (
            arith,
            contains-link zero_d id level to n (link zero_d id level from g.nodes),
            contains-link zero_d id level from n g.nodes,
            ==_iff from n,
            ==_iff to n,
          ));
    other_edges = λ a ne e.
        ground (arith, lookup_after zero_d g w id from to level [] value fresh lt a, ==_iff id a);
    live = λ l a e q.
        let after = lookup_after zero_d g w id from to level [] value fresh lt a in
        elim (Bool-cases (id == a)) [
          | inl t ↦ (
            ground (arith, after, q, t),
            (let v : e.info ≡ value = ground (arith, after, q, t) in rw v pv),
          )
          | inr t ↦ l a e (ground (arith, after, q, t))
        ];
    size =
        (let once = link zero_d id level from g.nodes in
          let there' : contains to once ≡ true =
            contains-link zero_d id level from to g.nodes ∙ ground (arith, ht) in
          let s1 : length once ≡ length g.nodes = length-link zero_d id level from g.nodes hf in
          let s2 : length (link zero_d id level to once) ≡ length once =
            length-link zero_d id level to once there' in
          unfold insert_edge in (s2 ∙ s1));
  }

  one_direction :
      (g : Graph D) (id from to level : ℕ) (value : D)
      → lookup id g.edges ≡ none
      → contains from g.nodes ≡ true
      → contains to g.nodes ≡ true
      → has_way_back zero_d g from to level ≡ true
      → add_edge zero_d g id from to [] value level ≡ some (g, false)
  unfolding add_edge reverse_edge
  one_direction g id from to level value fresh hf ht back = ground (arith, fresh, hf, ht, back)

  joined-Extends :
      (g : Graph D) (w : IsWellFormed g) (id from to level : ℕ) (value : D)
      → P value
      → (fresh : lookup id g.edges ≡ none) → (lt : level < 4) → (hf : contains from g.nodes ≡ true)
      → (ht : contains to g.nodes ≡ true) → (new : has_way_back zero_d g from to level ≡ false)
      → Extends P g (joined zero_d g w id from to level [] value fresh lt hf ht new) id
  joined-Extends g w id from to level value pv fresh lt hf ht new =
      let p = insert_edge-Extends g w id from to level value pv fresh lt hf ht in
      let e = joined_edge zero_d g w id from to level [] value fresh lt hf ht new in
      let h = there zero_d g w id from to level [] value fresh lt hf ht new in
      record {
        same_nodes = p.same_nodes;
        other_edges = λ a ne q.
            ground (arith, p.other_edges a ne q, lookup-insert id a e h.edges, ==_iff id a);
        live = λ l a f q. elim (Bool-cases (id == a)) [
          | inl t ↦ (
            ground (arith, lookup-insert id a e h.edges, q, t),
            (let v : f.info ≡ value = ground (arith, lookup-insert id a e h.edges, q, t) in
                rw v pv),
          )
          | inr t ↦ p.live l a f (ground (arith, lookup-insert id a e h.edges, q, t))
        ];
        size = p.size;
      }

  -- Whatever neighbours the two nodes have, both calls of `addEdge` with a new id succeed.
  pub join_lem :
      (g : Graph D) (w : IsWellFormed g) (id from to level : ℕ) (value : D)
      → P value
      → lookup id g.edges ≡ none
      → level < 4
      → contains from g.nodes ≡ true
      → contains to g.nodes ≡ true
      → (k : Graph D) × (b : Bool) × (join zero_d g id from to value level ≡ some (k, b))
        × IsJoined P g k id
        × (b ≡ false → k ≡ g)
  unfolding join
  join_lem g w id from to level value pv fresh lt hf ht =
      elim (Bool-cases (has_way_back zero_d g from to level)) [
        | inl back ↦
            let first = one_direction g id from to level value fresh hf ht back in
            elim (Bool-cases (has_way_back zero_d g to from level)) [
              | inl back' ↦ (
                g,
                false,
                rw (first, join) (one_direction g id to from level value fresh ht hf back'),
                record { well_formed = w; extends = Extends-refl P g id },
                λ h. refl,
              )
              | inr new ↦ (
                there zero_d g w id to from level [] value fresh lt ht hf new,
                true,
                rw (first, join)
                    (add_there zero_d g w id to from level [] value fresh lt ht hf new),
                record {
                  well_formed =
                      there-IsWellFormed zero_d g w id to from level [] value fresh lt ht hf new;
                  extends = insert_edge-Extends g w id to from level value pv fresh lt ht hf;
                },
                λ h. absurd (cc),
              )
            ]
        | inr new ↦ (
          joined zero_d g w id from to level [] value fresh lt hf ht new,
          true,
          rw (add_there zero_d g w id from to level [] value fresh lt hf ht new, join)
              (add_back zero_d g w id from to level [] value fresh lt hf ht new),
          record {
            well_formed =
                joined-IsWellFormed zero_d g w id from to level [] value fresh lt hf ht new;
            extends = joined-Extends g w id from to level value pv fresh lt hf ht new;
          },
          λ h. absurd (cc),
        )
      ]
