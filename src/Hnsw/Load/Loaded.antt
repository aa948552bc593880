-- ===== src/Hnsw/Load/Loaded.antt =====
-- src/operand/query/HNSW.cpp: the network that `initNet` builds from the store.
use gqlite.Prelude.{
  Option, ℕ, ◌+◌, ◌^◌, ◌≤◌, ◌<◌, ◌≡◌, refl, ap, ◌∙◌, true, false, ◌||◌, none, some, List, [], ◌∷◌,
  arith, length, All,
}
use gqlite.Prelude.Eq.{nat_eq}
use gqlite.Prelude.Maps.{lookup, contains}
use gqlite.Graph.{Graph, layer_of}
use gqlite.Network.{add_node}
use gqlite.Network.WellFormed.{IsWellFormed}
use gqlite.Network.Preserved.{add_node-IsWellFormed}
use gqlite.IdSource.Generator.{Generator}
use gqlite.Sorted.{member}
use gqlite.Hnsw.Insert.{Index}
use gqlite.Hnsw.Insert.Sound.{IsReady, generate_new}
use gqlite.Hnsw.Insert.Added.{edges-add_node, contains-add_node, length-add_node}
use gqlite.Hnsw.Load.{Record, Loading, init_nodes, init_net}
use gqlite.Hnsw.Load.Edges.{IsNull, links, is_key, All-map, IsLoading, AreNodes, init_edges_lem}

-- A record's nodes are nodes after the first walk, if each neighbour has a record of its own.
abbrev pub IsClosed : List Record → List Record → Type 0
IsClosed all [] = Unit
IsClosed all ((level, (k, ns)) ∷ rest) =
    (level < 4) × (is_key k all ≡ true) × All (λ n. is_key n all ≡ true) ns × IsClosed all rest

module _ {D : Type 0} where
  -- The first walk makes a node for each record, and no edge.
  record HasNodes (max_memory : ℕ) (g : Graph (Option D)) (records : List Record) : Type 0 where
    pub well_formed : IsWellFormed (init_nodes max_memory g records)
    pub edges : (init_nodes max_memory g records).edges ≡ g.edges
    pub nodes :
        (n : ℕ)
        → contains n (init_nodes max_memory g records).nodes
          ≡ (is_key n records || contains n g.nodes)
    pub few : length (init_nodes max_memory g records).nodes ≤ length g.nodes + length records

  init_nodes_lem :
      (max_memory : ℕ) (records : List Record) (g : Graph (Option D))
      → IsWellFormed g
      → HasNodes max_memory g records
  unfolding init_nodes
  init_nodes_lem max_memory [] g w = record {
    well_formed = w;
    edges = refl;
    nodes = λ n. refl;
    few = omega arith;
  }
  init_nodes_lem max_memory ((level, (k, ns)) ∷ rest) g w =
      let g' = add_node none max_memory g k [] none level in
      let p =
        init_nodes_lem max_memory rest g'
          (add_node-IsWellFormed none g w max_memory k level [] none) in
      record {
        well_formed = p.well_formed;
        edges = p.edges ∙ edges-add_node none g max_memory k level;
        nodes = λ n. ground (arith, p.nodes n, contains-add_node none g max_memory k level n);
        few = omega (arith, p.few, length-add_node none g max_memory k level);
      }

  IsClosed-AreNodes :
      (all records : List Record) (g : Graph (Option D))
      → ((n : ℕ) → is_key n all ≡ true → contains n g.nodes ≡ true)
      → IsClosed all records
      → AreNodes g records
  IsClosed-AreNodes all [] g f h = tt
  IsClosed-AreNodes all ((level, (k, ns)) ∷ rest) g f (lt, hk, hn, h) = (
    lt,
    f k hk,
    All-map (λ n. is_key n all ≡ true) (λ n. contains n g.nodes ≡ true) ns f hn,
    IsClosed-AreNodes all rest g f h,
  )

  empty-IsWellFormed : IsWellFormed {Json = Option D} (record { nodes = []; edges = [] })
  unfolding lookup member
  empty-IsWellFormed = record {
    layered = record { four = λ n nd e. absurd (cc (e)); ascending = λ n l. tt };
    linked = λ n l id h. absurd (cc (h));
    listed = λ id e h d. absurd (cc (h));
  }

  pub record IsLoaded (ix ix' : Index D) (records : List Record) : Type 0 where
    pub ready : IsReady IsNull ix'
    pub nodes : (n : ℕ) → contains n ix'.network.nodes ≡ is_key n records
    pub few_nodes : length ix'.network.nodes ≤ length records
    pub few_ids : ix'.ids.cur ≤ ix.ids.cur + (1 + links records)
    pub same_cache : ix'.cache ≡ ix.cache
    pub same_vectors : ix'.vectors ≡ ix.vectors

  no_edges :
      (ix : Index D) (a : ℕ)
      → ix.network ≡ record { nodes = []; edges = [] }
      → lookup a ix.network.edges ≡ none
  unfolding lookup
  no_edges ix a e = ap (λ (g : Graph (Option D)). lookup a g.edges) e

  no_nodes :
      (ix : Index D) (a : ℕ)
      → ix.network ≡ record { nodes = []; edges = [] }
      → contains a ix.network.nodes ≡ false
  unfolding lookup contains
  no_nodes ix a e = ap (λ (g : Graph (Option D)). contains a g.nodes) e

  pub init_net_lem :
      (max_memory : ℕ) (ix : Index D) (records : List Record)
      → ix.network ≡ record { nodes = []; edges = [] }
      → ix.ids.reused ≡ []
      → IsClosed records records
      → ((l n : ℕ) → member n (layer_of ix.cache l) ≡ true → is_key n records ≡ true)
      → ix.ids.cur + (1 + links records) < 2 ^ 64
      → (ix' : Index D) × (init_net max_memory ix records ≡ some ix') × IsLoaded ix ix' records
  unfolding init_net
  init_net_lem max_memory ix records empty unused closed cached room =
      let w : IsWellFormed ix.network = rw empty empty-IsWellFormed in
      let n = init_nodes_lem max_memory records ix.network w in
      let g = init_nodes max_memory ix.network records in
      let none_there : (a : ℕ) → lookup a g.edges ≡ none =
        λ a. ap (lookup a) n.edges ∙ no_edges ix a empty in
      let keyed : (a : ℕ) → contains a g.nodes ≡ is_key a records =
        λ a. ground (arith, n.nodes a, no_nodes ix a empty) in
      let id = ix.ids.cur + 1 in
      let ids : Generator = record (ix.ids) { cur = id } in
      let s : Loading D = record { network = g; ids = ids; eid = id; visited = [] } in
      let ok : IsLoading s = record {
        well_formed = n.well_formed;
        live = λ a e h. absurd (ground (arith, h, none_there a));
        next = none_there id;
        above = omega arith;
        free = λ a h. none_there a;
        unused = unused;
      } in
      let (s', p, goes) =
        init_edges_lem records s ok (omega (arith, room))
          (IsClosed-AreNodes records records g (λ a h. keyed a ∙ h) closed) in
      (
        record ix { network = s'.network; ids = s'.ids },
        rw (generate_new ix.ids unused (omega (arith, room)), init_net) (rw (p) refl),
        record {
          ready = record {
            well_formed = goes.loading.well_formed;
            live = goes.loading.live;
            free = goes.loading.free;
            unused = goes.loading.unused;
            cached = λ l a h. goes.same_nodes a ∙ (keyed a ∙ cached l a h);
          };
          nodes = λ a. goes.same_nodes a ∙ keyed a;
          few_nodes =
              omega
                (arith, goes.same_size, n.few, ap (λ (h : Graph (Option D)). length h.nodes) empty);
          few_ids = omega (arith, goes.few_ids);
          same_cache = refl;
          same_vectors = refl;
        },
      )
