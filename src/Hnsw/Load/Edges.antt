-- ===== src/Hnsw/Load/Edges.antt =====
-- src/operand/query/HNSW.cpp: the second walk of `initNet`, which makes the edges.
use gqlite.Prelude.{
  Option, ℕ, ◌+◌, ◌^◌, ◌≤◌, ◌<◌, ◌≡◌, refl, ap, ◌∙◌, Bool, true, false, ◌||◌, none, some, List, [],
  ◌∷◌, ◌==◌, arith, length, if◌then◌else◌, Bool-cases, All, inl, inr,
}
use gqlite.Prelude.Eq.{nat_eq}
use gqlite.Prelude.Maps.{lookup, contains}
use gqlite.Graph.{Graph}
use gqlite.Network.WellFormed.{IsWellFormed}
use gqlite.IdSource.Generator
use gqlite.IdSource.Generator.{Generator}
use gqlite.Hnsw.Insert.{join}
use gqlite.Hnsw.Insert.Joined.{IsLive, join_lem}
use gqlite.Hnsw.Insert.Sound.{generate_new}
use gqlite.Hnsw.Load.{Record, Loading, is_visited, load_edge, load_record, init_edges}

-- The neighbours that the records name.
abbrev pub links : List Record → ℕ
links [] = 0
links ((_, (_, ns)) ∷ rest) = length ns + links rest

abbrev pub is_key : ℕ → List Record → Bool
is_key n [] = false
is_key n ((_, (k, _)) ∷ rest) = k == n || is_key n rest

pub All-map : (P Q : ℕ → Type 0) (ns : List ℕ) → ((n : ℕ) → P n → Q n) → All P ns → All Q ns
All-map P Q [] f h = tt
All-map P Q (n ∷ ns) f (p, h) = (f n p, All-map P Q ns f h)

-- A null payload.
abbrev pub IsNull : {D : Type 0} → Option D → Type 0
IsNull {D} o = o ≡ none

module _ {D : Type 0} where
  pub record IsLoading (s : Loading D) : Type 0 where
    pub well_formed : IsWellFormed s.network
    pub live : IsLive IsNull s.network
    pub next : lookup s.eid s.network.edges ≡ none
    pub above : s.eid ≤ s.ids.cur
    pub free : (id : ℕ) → s.ids.cur < id → lookup id s.network.edges ≡ none
    pub unused : s.ids.reused ≡ []

  pub record Goes (s s' : Loading D) (k : ℕ) : Type 0 where
    pub loading : IsLoading s'
    pub same_nodes : (n : ℕ) → contains n s'.network.nodes ≡ contains n s.network.nodes
    pub few_ids : s'.ids.cur ≤ s.ids.cur + k
    pub same_size : length s'.network.nodes ≡ length s.network.nodes

module _ {D : Type 0} where
  -- The levels are below 4, and the nodes and their neighbours are nodes of the network.
  abbrev pub AreNodes : Graph (Option D) → List Record → Type 0
  AreNodes g [] = Unit
  AreNodes g ((level, (k, ns)) ∷ rest) =
      (level < 4)
      × (contains k g.nodes ≡ true)
      × All (λ n. contains n g.nodes ≡ true) ns
      × AreNodes g rest

  pub AreNodes-map :
      (g h : Graph (Option D)) (records : List Record)
      → ((n : ℕ) → contains n g.nodes ≡ true → contains n h.nodes ≡ true)
      → AreNodes g records
      → AreNodes h records
  AreNodes-map g h [] f a = tt
  AreNodes-map g h ((level, (k, ns)) ∷ rest) f (lt, hk, hn, a) = (
    lt,
    f k hk,
    All-map (λ n. contains n g.nodes ≡ true) (λ n. contains n h.nodes ≡ true) ns f hn,
    AreNodes-map g h rest f a,
  )

module _ {D : Type 0} where
  load_step :
      (s : Loading D) (level k n eid : ℕ) (ids : Generator) (g : Graph (Option D)) (b : Bool)
      → is_visited level n s.visited ≡ false
      → join none s.network s.eid n k none level ≡ some (g, b)
      → (if b then Generator.generate s.ids else (s.eid, s.ids)) ≡ (eid, ids)
      → load_edge s level k n ≡ some (record s { network = g; eid = eid; ids = ids })
  unfolding load_edge
  load_step s level k n eid ids g b v h e = rw (v, load_edge) (rw (h) (rw (e) refl))

  load_edge_lem :
      (s : Loading D) (level k n : ℕ)
      → IsLoading s
      → s.ids.cur + 1 < 2 ^ 64
      → level < 4
      → contains k s.network.nodes ≡ true
      → contains n s.network.nodes ≡ true
      → (s' : Loading D) × (load_edge s level k n ≡ some s') × Goes s s' 1
  unfolding load_edge
  load_edge_lem s level k n ok room lt hk hn = elim (Bool-cases (is_visited level n s.visited)) [
    | inl v ↦ (
      s,
      rw (v, load_edge) refl,
      record { loading = ok; same_nodes = λ a. refl; few_ids = omega arith; same_size = refl },
    )
    | inr v ↦
        let (g, b, p, j, kept) =
          join_lem none IsNull s.network ok.well_formed s.eid n k level none refl ok.next lt hn
            hk in
        let id = s.ids.cur + 1 in
        elim (Bool-cases b) [
          | inl t ↦
              let ids : Generator = record (s.ids) { cur = id } in
              (
                record s { network = g; eid = id; ids = ids },
                load_step s level k n id ids g b v p (rw t (generate_new s.ids ok.unused room)),
                record {
                  loading = record {
                    well_formed = j.well_formed;
                    live = j.extends.live ok.live;
                    next =
                        j.extends.other_edges id (omega (arith, ok.above))
                          (ok.free id (omega arith));
                    above = omega arith;
                    free = λ a h.
                        j.extends.other_edges a (omega (arith, h, ok.above))
                          (ok.free a (omega (arith, h)));
                    unused = ok.unused;
                  };
                  same_nodes = j.extends.same_nodes;
                  few_ids = omega arith;
                  same_size = j.extends.size;
                },
              )
          | inr t ↦ (
            record s { network = g },
            load_step s level k n s.eid s.ids g b v p (rw t refl),
            record {
              loading = record {
                well_formed = j.well_formed;
                live = j.extends.live ok.live;
                next = ap (λ (h : Graph (Option D)). lookup s.eid h.edges) (kept t) ∙ ok.next;
                above = ok.above;
                free = λ a h. j.extends.other_edges a (omega (arith, h, ok.above)) (ok.free a h);
                unused = ok.unused;
              };
              same_nodes = j.extends.same_nodes;
              few_ids = omega arith;
              same_size = j.extends.size;
            },
          )
        ]
  ]

  load_record_lem :
      (ns : List ℕ) (s : Loading D) (level k : ℕ)
      → IsLoading s
      → s.ids.cur + length ns < 2 ^ 64
      → level < 4
      → contains k s.network.nodes ≡ true
      → All (λ n. contains n s.network.nodes ≡ true) ns
      → (s' : Loading D) × (load_record s level k ns ≡ some s') × Goes s s' (length ns)
  unfolding load_record
  load_record_lem [] s level k ok room lt hk h = (
    record s { visited = (level, k) ∷ s.visited },
    refl,
    record {
      loading = record {
        well_formed = ok.well_formed;
        live = ok.live;
        next = ok.next;
        above = ok.above;
        free = ok.free;
        unused = ok.unused;
      };
      same_nodes = λ a. refl;
      few_ids = omega arith;
      same_size = refl;
    },
  )
  load_record_lem (n ∷ ns) s level k ok room lt hk (h, hs) =
      let (s1, p, g) = load_edge_lem s level k n ok (omega (arith, room)) lt hk h in
      let (s2, q, g') =
        load_record_lem ns s1 level k g.loading (omega (arith, room, g.few_ids)) lt
          (g.same_nodes k ∙ hk)
          (All-map (λ a. contains a s.network.nodes ≡ true)
            (λ a. contains a s1.network.nodes ≡ true) ns (λ a e. g.same_nodes a ∙ e) hs) in
      (
        s2,
        rw (p, load_record) q,
        record {
          loading = g'.loading;
          same_nodes = λ a. g'.same_nodes a ∙ g.same_nodes a;
          few_ids = omega (arith, g.few_ids, g'.few_ids);
          same_size = g'.same_size ∙ g.same_size;
        },
      )

  pub init_edges_lem :
      (records : List Record) (s : Loading D)
      → IsLoading s
      → s.ids.cur + links records < 2 ^ 64
      → AreNodes s.network records
      → (s' : Loading D) × (init_edges s records ≡ some s') × Goes s s' (links records)
  unfolding init_edges
  init_edges_lem [] s ok room h = (
    s,
    refl,
    record { loading = ok; same_nodes = λ a. refl; few_ids = omega arith; same_size = refl },
  )
  init_edges_lem ((level, (k, ns)) ∷ rest) s ok room (lt, hk, hn, h) =
      let (s1, p, g) = load_record_lem ns s level k ok (omega (arith, room)) lt hk hn in
      let (s2, q, g') =
        init_edges_lem rest s1 g.loading (omega (arith, room, g.few_ids))
          (AreNodes-map s.network s1.network rest (λ n e. g.same_nodes n ∙ e) h) in
      (
        s2,
        rw (p, init_edges) q,
        record {
          loading = g'.loading;
          same_nodes = λ a. g'.same_nodes a ∙ g.same_nodes a;
          few_ids = omega (arith, g.few_ids, g'.few_ids);
          same_size = g'.same_size ∙ g.same_size;
        },
      )
