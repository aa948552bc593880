-- ===== src/Hnsw/Insert/Sound.antt =====
-- src/operand/query/HNSW.cpp: the edges that `addNode2Edge` makes.
use gqlite.Prelude.{
  Option, none, ℕ, suc, ◌+◌, ◌^◌, ◌≤◌, ◌<◌, ◌≡◌, refl, ◌∙◌, Bool, true, false, none, some, List, [],
  ◌∷◌, ◌==◌, arith, length, Bool-cases, All, inl, inr,
}
use gqlite.Prelude.Eq.{nat_eq}
use gqlite.Prelude.Maps.{lookup, contains}
use gqlite.Sorted.{member}
use gqlite.Graph.{Graph, layer_of}
use gqlite.Network.WellFormed.{IsWellFormed}
use gqlite.IdSource.Generator
use gqlite.IdSource.Generator.{Generator}
use gqlite.Hnsw.{Metric, clip}
use gqlite.Hnsw.Insert.{Index, one_less, join, connect, connect_all}
use gqlite.Hnsw.Insert.Joined.{IsLive, join_lem}
use gqlite.Hnsw.Insert.Clipped.{HasDistance, clip_lem}

-- The network is well-formed with no edge marked as deleted and payloads as `P` says, the ids above the last one are free, none is
-- recycled, and the nodes of the cache are nodes of the network.
pub record IsReady {D : Type 0} (P : Option D → Type 0) (ix : Index D) : Type 0 where
  pub well_formed : IsWellFormed ix.network
  pub live : IsLive P ix.network
  pub free : (id : ℕ) → ix.ids.cur < id → lookup id ix.network.edges ≡ none
  pub unused : ix.ids.reused ≡ []
  pub cached :
      (l n : ℕ) → member n (layer_of ix.cache l) ≡ true → contains n ix.network.nodes ≡ true

-- After some connections: the same nodes and cache, and at most `k` new ids.
pub record Grows {D : Type 0} (ix ix' : Index D) (k : ℕ) : Type 0 where
  pub ready : IsReady HasDistance ix'
  pub same_nodes : (n : ℕ) → contains n ix'.network.nodes ≡ contains n ix.network.nodes
  pub same_cache : ix'.cache ≡ ix.cache
  pub same_size : length ix'.network.nodes ≡ length ix.network.nodes
  pub same_vectors : ix'.vectors ≡ ix.vectors
  pub few_ids : ix'.ids.cur ≤ ix.ids.cur + k

generate_from :
    (cur : ℕ) (reused : List ℕ)
    → reused ≡ []
    → cur + 1 < 2 ^ 64
    → Generator.generate (record { cur = cur; reused = reused })
      ≡ (cur + 1, record { cur = cur + 1; reused = reused })
unfolding Generator.generate Generator.post_increment
generate_from cur [] h room = ground (arith, room)
generate_from cur (x ∷ xs) h room = absurd (cc)

pub generate_new :
    (g : Generator)
    → g.reused ≡ []
    → g.cur + 1 < 2 ^ 64
    → Generator.generate g ≡ (g.cur + 1, record g { cur = g.cur + 1 })
generate_new g h room = generate_from g.cur g.reused h room

module _ {D : Type 0} (M : Metric D) (zero_d : D) (m : ℕ) where
  connect_step :
      (ix : Index D) (node level : ℕ) (near : ℕ → D) (nid eid : ℕ) (ids : Generator)
      (g1 g2 g3 : Graph (Option D)) (b : Bool)
      → node == nid ≡ false
      → Generator.generate ix.ids ≡ (eid, ids)
      → clip M.less zero_d ix.network node level (one_less m) ≡ some g1
      → clip M.less zero_d g1 nid level (one_less m) ≡ some g2
      → join none g2 eid node nid (some (near nid)) level ≡ some (g3, b)
      → connect M zero_d m ix node level near nid ≡ some (record ix { network = g3; ids = ids })
  unfolding connect
  connect_step ix node level near nid eid ids g1 g2 g3 b ne e p q r =
      rw (ne, connect) (rw (e) (rw (p) (rw (q) (rw (r) refl))))

  connect_lem :
      (ix : Index D) (node level : ℕ) (near : ℕ → D) (nid : ℕ)
      → IsReady HasDistance ix
      → ix.ids.cur + 1 < 2 ^ 64
      → level < 4
      → contains node ix.network.nodes ≡ true
      → contains nid ix.network.nodes ≡ true
      → (ix' : Index D) × (connect M zero_d m ix node level near nid ≡ some ix') × Grows ix ix' 1
  unfolding connect
  connect_lem ix node level near nid ok room lt hn hd = elim (Bool-cases (node == nid)) [
    | inl e ↦ (
      ix,
      rw (e, connect) refl,
      record {
        ready = ok;
        same_nodes = λ n. refl;
        same_cache = refl;
        same_vectors = refl;
        same_size = refl;
        few_ids = omega arith;
      },
    )
    | inr ne ↦
        let id = ix.ids.cur + 1 in
        let (g1, p1, j1) =
          clip_lem M.less zero_d ix.network ok.well_formed node level (one_less m) 0 ok.live hn in
        let live1 = j1.extends.live ok.live in
        let (g2, p2, j2) =
          clip_lem M.less zero_d g1 j1.well_formed nid level (one_less m) 0 live1
            (j1.extends.same_nodes nid ∙ hd) in
        let same2 : (n : ℕ) → contains n g2.nodes ≡ contains n ix.network.nodes =
          λ n. j2.extends.same_nodes n ∙ j1.extends.same_nodes n in
        let free2 : (a : ℕ) → ix.ids.cur < a → lookup a g2.edges ≡ none = λ a h.
          j2.extends.other_edges a (omega (arith, h))
            (j1.extends.other_edges a (omega (arith, h)) (ok.free a h)) in
        let (g3, b, p3, j3, kept) =
          join_lem none HasDistance g2 j2.well_formed id node nid level (some (near nid))
            (near nid, refl) (free2 id (omega arith)) lt (same2 node ∙ hn) (same2 nid ∙ hd) in
        let ids : Generator = record (ix.ids) { cur = id } in
        (
          record ix { network = g3; ids = ids },
          connect_step ix node level near nid id ids g1 g2 g3 b ne
              (generate_new ix.ids ok.unused room) p1 p2 p3,
          record {
            ready = record {
              well_formed = j3.well_formed;
              live = j3.extends.live (j2.extends.live live1);
              free =
                  λ a h. j3.extends.other_edges a (omega (arith, h)) (free2 a (omega (arith, h)));
              unused = ok.unused;
              cached = λ l n h. j3.extends.same_nodes n ∙ (same2 n ∙ ok.cached l n h);
            };
            same_nodes = λ n. j3.extends.same_nodes n ∙ same2 n;
            same_cache = refl;
            same_vectors = refl;
            same_size = j3.extends.size ∙ (j2.extends.size ∙ j1.extends.size);
            few_ids = omega arith;
          },
        )
  ]

pub Grows-trans :
    {D : Type 0} (a b c : Index D) (j k : ℕ) → Grows a b j → Grows b c k → Grows a c (j + k)
Grows-trans a b c j k p q = record {
  ready = q.ready;
  same_nodes = λ n. q.same_nodes n ∙ p.same_nodes n;
  same_cache = q.same_cache ∙ p.same_cache;
  same_vectors = q.same_vectors ∙ p.same_vectors;
  same_size = q.same_size ∙ p.same_size;
  few_ids = omega (arith, p.few_ids, q.few_ids);
}

pub Grows-le : {D : Type 0} (a b : Index D) (j k : ℕ) → j ≤ k → Grows a b j → Grows a b k
Grows-le a b j k h p = record {
  ready = p.ready;
  same_nodes = p.same_nodes;
  same_cache = p.same_cache;
  same_vectors = p.same_vectors;
  same_size = p.same_size;
  few_ids = omega (arith, p.few_ids, h);
}

-- `nodes` are the nodes of the network.
abbrev pub Lists : {D : Type 0} → List ℕ → Index D → Type 0
Lists nodes ix = (n : ℕ) → contains n ix.network.nodes ≡ member n nodes

pub Grows-Lists :
    {D : Type 0} (nodes : List ℕ) (a b : Index D) (k : ℕ)
    → Grows a b k
    → Lists nodes a
    → Lists nodes b
Grows-Lists nodes a b k p h n = p.same_nodes n ∙ h n

module _ {D : Type 0} (M : Metric D) (zero_d : D) (m : ℕ) (nodes : List ℕ) where
  pub connect_all_lem :
      (ns : List ℕ) (ix : Index D) (node level : ℕ) (near : ℕ → D)
      → IsReady HasDistance ix
      → Lists nodes ix
      → ix.ids.cur + length ns < 2 ^ 64
      → level < 4
      → member node nodes ≡ true
      → All (λ n. member n nodes ≡ true) ns
      → (ix' : Index D) × (connect_all M zero_d m ix node level near ns ≡ some ix')
        × Grows ix ix' (length ns)
  unfolding connect_all
  connect_all_lem [] ix node level near ok same room lt hn h = (
    ix,
    refl,
    record {
      ready = ok;
      same_nodes = λ n. refl;
      same_cache = refl;
      same_vectors = refl;
      same_size = refl;
      few_ids = omega arith;
    },
  )
  connect_all_lem (nid ∷ ns) ix node level near ok same room lt hn (h, hs) =
      let (ix1, p, g) =
        connect_lem M zero_d m ix node level near nid ok (omega (arith, room)) lt (same node ∙ hn)
          (same nid ∙ h) in
      let (ix2, q, g') =
        connect_all_lem ns ix1 node level near g.ready (Grows-Lists nodes ix ix1 1 g same)
          (omega (arith, room, g.few_ids)) lt hn hs in
      (
        ix2,
        rw (p, connect_all) q,
        Grows-le ix ix2 (1 + length ns) (suc (length ns)) (omega arith)
            (Grows-trans ix ix1 ix2 1 (length ns) g g'),
      )
