-- ===== src/Network/WellFormed.antt =====
-- The invariant of the virtual network: nodes and edges know one another. Every edge that a node
-- lists is an edge of the graph at that node and in that layer, and every live edge is listed by
-- its two nodes in its layer.
use gqlite.Prelude.{
  ℕ, ◌<◌, ◌≡◌, true, false, ◌||◌, ◌&&◌, ◌⊎◌, none, some, List, arith, ◌==◌, ==_iff, if◌then◌else◌,
  Bool-cases, inl, inr,
}
use gqlite.Prelude.Eq.{nat_eq}
use gqlite.Prelude.Maps.{lookup, insert, lookup-insert}
use gqlite.Sorted.{member}
use gqlite.Graph.{Graph, Edge, EdgeStatus}
use gqlite.Network.{insert_edge, new_edge, link}
use gqlite.Network.Links.{layer_in, HasLayers, link-HasLayers, member-link}

module _ {Json : Type 0} where
  -- The edge `id` of the graph touches node `n` and lies in layer `l`.
  abbrev pub Incident : List (ℕ × Edge Json) → ℕ → ℕ → ℕ → Type 0
  Incident edges n l id =
      (e : Edge Json) × (lookup id edges ≡ some e)
      × ((e.first ≡ n) ⊎ (e.second ≡ n))
      × (e.status.layer ≡ l)

  pub record IsWellFormed (g : Graph Json) : Type 0 where
    pub layered : HasLayers g.nodes
    pub linked : (n l id : ℕ) → member id (layer_in g.nodes n l) ≡ true → Incident g.edges n l id
    pub listed :
        (id : ℕ) (e : Edge Json)
        → lookup id g.edges ≡ some e
        → e.status.del ≡ false
        → (member id (layer_in g.nodes e.first e.status.layer) ≡ true)
          × (member id (layer_in g.nodes e.second e.status.layer) ≡ true)

module _ {Json : Type 0} (null : Json) (g : Graph Json) (w : IsWellFormed g) where
  module _ (id from to level : ℕ) (attr : List ℕ) (value : Json) (fresh : lookup id g.edges ≡ none)
      (lt : level < 4) where
    abbrev pub after : Graph Json
    after = insert_edge null g id from to attr value level

    abbrev pub inserted : Edge Json
    inserted = new_edge null from to attr value level

    pub member_after :
        (a n l : ℕ)
        → member a (layer_in after.nodes n l) ≡ (
            (to == n && (level == l && id == a))
            || ((from == n && (level == l && id == a)) || member a (layer_in g.nodes n l)))
    unfolding insert_edge
    member_after a n l = ground (
      arith,
      member-link null (link null id level from g.nodes)
          (link-HasLayers null g.nodes w.layered id level from lt) id level to a n l lt,
      member-link null g.nodes w.layered id level from a n l lt,
    )

    pub lookup_after :
        (a : ℕ) → lookup a after.edges ≡ (if id == a then some inserted else lookup a g.edges)
    unfolding insert_edge
    lookup_after a = lookup-insert id a inserted g.edges

    linked_old : (n l a : ℕ) → Incident g.edges n l a → Incident after.edges n l a
    linked_old n l a (e, found, ends, layer) =
        (e, ground (arith, lookup_after a, ==_iff id a), ends, layer)

    linked_new :
        (n l a : ℕ)
        → (to == n && (level == l && id == a)) || (from == n && (level == l && id == a)) ≡ true
        → Incident after.edges n l a
    linked_new n l a h = (inserted, ground (arith, lookup_after a), ground arith, ground arith)

    linked_after :
        (n l a : ℕ) → member a (layer_in after.nodes n l) ≡ true → Incident after.edges n l a
    linked_after n l a h =
        let touched = to == n && (level == l && id == a) || from == n && (level == l && id == a) in
        elim (Bool-cases touched) [
          | inl new ↦ linked_new n l a new
          | inr old ↦ linked_old n l a (w.linked n l a (ground (arith, member_after a n l)))
        ]

    listed_after :
        (a : ℕ) (e : Edge Json)
        → lookup a after.edges ≡ some e
        → e.status.del ≡ false
        → (member a (layer_in after.nodes e.first e.status.layer) ≡ true)
          × (member a (layer_in after.nodes e.second e.status.layer) ≡ true)
    listed_after a e h d = ground (
      arith,
      lookup_after a,
      w.listed a e,
      member_after a e.first e.status.layer,
      member_after a e.second e.status.layer,
    )

    pub insert_edge-IsWellFormed : IsWellFormed after
    insert_edge-IsWellFormed = record {
      layered =
          unfold insert_edge in
          link-HasLayers null _ (link-HasLayers null g.nodes w.layered id level from lt) id level to
            lt;
      linked = linked_after;
      listed = listed_after;
    }

  -- Changing the direction bits of an edge changes neither its ends nor its layer.
  module _ (id : ℕ) (e : Edge Json) (found : lookup id g.edges ≡ some e) (status : EdgeStatus)
      (same_layer : status.layer ≡ e.status.layer) (same_del : status.del ≡ e.status.del) where
    abbrev pub redirected : Graph Json
    redirected = record g { edges = insert id (record e { status = status }) g.edges }

    pub redirect-IsWellFormed : IsWellFormed redirected
    redirect-IsWellFormed = record {
      layered = w.layered;
      linked = λ n l a h. relink n l a (w.linked n l a h);
      listed = λ a f h d. ground (
        arith,
        lookup-insert id a (record e { status = status }) g.edges,
        ==_iff id a,
        w.listed a e,
        w.listed a f,
      );
    }
      where
        relink : (n l a : ℕ) → Incident g.edges n l a → Incident redirected.edges n l a
        relink n l a (f, at, ends, layer) = elim (Bool-cases (id == a)) [
          | inl same ↦ (
            record e { status = status },
            ground (arith, lookup-insert id a (record e { status = status }) g.edges),
            ground (arith, ==_iff id a),
            ground (arith, ==_iff id a),
          )
          | inr other ↦ (
            f,
            ground (arith, lookup-insert id a (record e { status = status }) g.edges),
            ends,
            layer,
          )
        ]
