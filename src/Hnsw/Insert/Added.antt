-- ===== src/Hnsw/Insert/Added.antt =====
-- src/operand/query/HNSW.cpp: `add` on a network that was built.
use gqlite.Prelude.{
  none, ℕ, zero, suc, ◌+◌, ◌*◌, ◌^◌, ◌≤◌, ◌<◌, ◌≡◌, refl, ap, ◌∙◌, sym, true, false, ◌||◌, some,
  List, [], ◌∷◌, ◌==◌, ==_iff, arith, leb, length, if◌then◌else◌, Option-cases, Bool-cases, inl,
  inr,
}
use gqlite.Prelude.Eq.{nat_eq}
use gqlite.Prelude.Maps.{lookup, insert, contains, contains-insert, lookup-insert, length-insert_le}
use gqlite.Sorted.{member}
use gqlite.Graph.{Graph, layer_of}
use gqlite.Network.{new_node, put_node, add_node}
use gqlite.Network.Layers.{layer_of-beyond}
use gqlite.Network.Preserved.{add_node-put_node, add_node-IsWellFormed}
use gqlite.Hnsw.{Metric, entry, cache_node, add_disk}
use gqlite.Hnsw.Layers.{layer_of-cache_node, entry_lem}
use gqlite.Hnsw.Insert.{Index, or_nil, id2vector, is_filled, add_node2edge, add}
use gqlite.Hnsw.Insert.Clipped.{HasDistance}
use gqlite.Hnsw.Insert.Sound.{IsReady}
use gqlite.Hnsw.Insert.Levels.{add_node2edge_lem}

keys : {A : Type 0} → List (ℕ × A) → List ℕ
keys [] = []
keys ((k, _) ∷ m) = k ∷ keys m

length-keys : {A : Type 0} (m : List (ℕ × A)) → length (keys m) ≡ length m
unfolding keys
length-keys [] = refl
length-keys ((k, _) ∷ m) = omega (arith, length-keys m)

member-keys : {A : Type 0} (m : List (ℕ × A)) (n : ℕ) → contains n m ≡ member n (keys m)
unfolding keys member contains lookup
member-keys [] n = refl
member-keys ((k, v) ∷ m) n = ground (arith, member-keys m n)

pub length-cache_node :
    (cache : List (List ℕ)) (level id : ℕ) → length (cache_node cache level id) ≡ length cache
unfolding cache_node
length-cache_node [] level id = refl
length-cache_node (a ∷ cache) zero id = refl
length-cache_node (a ∷ cache) (suc level) id = omega (arith, length-cache_node cache level id)

-- A node of the cache was there before, or is the one that was added.
pub cached_after :
    (cache : List (List ℕ)) (level id l n : ℕ)
    → member n (layer_of (cache_node cache level id) l) ≡ true
    → (id == n || member n (layer_of cache l)) ≡ true
unfolding member
cached_after cache level id l n h = elim (Bool-cases (leb (length cache) l)) [
  | inl e ↦ absurd (
      ground (
        arith,
        h,
        layer_of-beyond (cache_node cache level id) l
            (omega (arith, length-cache_node cache level id, ground_leb e)),
      ))
  | inr e ↦ ground (arith, h, e, layer_of-cache_node cache level id l n)
]
  where
    ground_leb : leb (length cache) l ≡ true → length cache ≤ l
    ground_leb e = ground arith

entry_after :
    (cache : List (List ℕ)) (level id : ℕ)
    → 0 < length cache
    → (l e : ℕ) × (entry (cache_node cache level id) ≡ some (l, e))
unfolding member
entry_after cache level id h = elim (Option-cases (entry (cache_node cache level id))) [
  | inr ((l, e), p) ↦ (l, e, p)
  | inl p ↦ absurd (
      ground (
        arith,
        h,
        layer_of-cache_node cache level id 0 id,
        (entry_lem (cache_node cache level id)).1 p 0,
      ))
]

module _ {D : Type 0} (zero_d : D) (g : Graph D) (max_memory id level : ℕ) where
  pub edges-add_node : (add_node zero_d max_memory g id [] zero_d level).edges ≡ g.edges
  unfolding put_node
  edges-add_node = rw (add_node-put_node zero_d max_memory g id level [] zero_d) (ground arith)

  pub contains-add_node :
      (n : ℕ)
      → contains n (add_node zero_d max_memory g id [] zero_d level).nodes
        ≡ (id == n || contains n g.nodes)
  unfolding put_node contains
  contains-add_node n =
      rw (add_node-put_node zero_d max_memory g id level [] zero_d)
        (elim (Option-cases (lookup id g.nodes)) [
          | inr (nd, e) ↦ ground (arith, e, ==_iff id n)
          | inl e ↦
              ground (arith, e, contains-insert id n (new_node zero_d [] zero_d level) g.nodes)
        ])

  pub length-add_node :
      length (add_node zero_d max_memory g id [] zero_d level).nodes ≤ length g.nodes + 1
  unfolding put_node
  length-add_node =
      rw (add_node-put_node zero_d max_memory g id level [] zero_d)
        (ground (arith, length-insert_le id (new_node zero_d [] zero_d level) g.nodes))

module _ {D : Type 0} (M : Metric D) (zero_d : D) (disk : ℕ → ℕ → List ℕ)
    (m ef max_memory : ℕ) where
  abbrev prepared : Index D → ℕ → List D → ℕ → Index D
  prepared ix sid vec level = record ix {
    cache = cache_node ix.cache level sid;
    vectors = insert sid vec ix.vectors;
    network = add_node none max_memory ix.network sid [] none level;
  }

  prepared-IsReady :
      (ix : Index D) (sid level : ℕ) (vec : List D)
      → IsReady HasDistance ix
      → IsReady HasDistance (prepared ix sid vec level)
  prepared-IsReady ix sid level vec ok =
      let same = edges-add_node none ix.network max_memory sid level in
      record {
        well_formed =
            add_node-IsWellFormed none ix.network ok.well_formed max_memory sid level [] none;
        live = λ a e h. ok.live a e (sym (ap (lookup a) same) ∙ h);
        free = λ id h. ap (lookup id) same ∙ ok.free id h;
        unused = ok.unused;
        cached = λ l n h. ground (
          arith,
          contains-add_node none ix.network max_memory sid level n,
          cached_after ix.cache level sid l n h,
          ok.cached l n,
        );
      }

  add_new :
      (ix r : Index D) (sid level : ℕ) (vec : List D)
      → is_filled (id2vector ix.vectors sid) ≡ false
      → add_node2edge M zero_d disk m ef
          (suc (suc (length (add_node none max_memory ix.network sid [] none level).nodes)))
          (prepared ix sid vec level)
          sid
          vec
          level
        ≡ some r
      → add M zero_d disk m ef max_memory ix sid vec level ≡ some (record r { updated = true })
  unfolding add add_disk
  add_new ix r sid level vec e h = rw (e, add) (rw (h) refl)

  -- What an insertion leaves.
  pub record IsAdded (ix ix' : Index D) (sid : ℕ) (vec : List D) : Type 0 where
    pub ready : IsReady HasDistance ix'
    pub nodes : (n : ℕ) → contains n ix'.network.nodes ≡ (sid == n || contains n ix.network.nodes)
    pub vectors :
        (n : ℕ) → id2vector ix'.vectors n ≡ (if sid == n then vec else id2vector ix.vectors n)

  -- In an index whose network is well-formed with no edge marked and a distance as the payload of each
  -- edge, whose cached nodes are nodes of the network, and whose generator has recycled no id and has
  -- the ids above its last one free, with some layer in the cache: adding an id without a stored
  -- vector at a level below 4 succeeds, where four edge ids are left for each node and the new one. No
  -- assertion fails, all this holds of the index again, its nodes are those of before and the new one,
  -- and the stored vectors are those of before but that of the new one.
  pub add_lem :
      (ix : Index D) (sid level : ℕ) (vec : List D)
      → IsReady HasDistance ix
      → 0 < length ix.cache
      → level < 4
      → ix.ids.cur + 4 * (length ix.network.nodes + 1) < 2 ^ 64
      → is_filled (id2vector ix.vectors sid) ≡ false
      → (ix' : Index D) × (add M zero_d disk m ef max_memory ix sid vec level ≡ some ix')
        × IsAdded ix ix' sid vec
  unfolding id2vector
  add_lem ix sid level vec ok layers lt room e =
      let g = add_node none max_memory ix.network sid [] none level in
      let (l, ep, there) = entry_after ix.cache level sid layers in
      let size = length-add_node none ix.network max_memory sid level in
      let (r, p, grown) =
        add_node2edge_lem M zero_d m (keys g.nodes) disk ef (prepared ix sid vec level) sid vec
          level l ep (prepared-IsReady ix sid level vec ok) (λ n. member-keys g.nodes n)
          (omega (arith, room, size, length-keys g.nodes)) lt
          (sym (member-keys g.nodes sid)
            ∙ ground (arith, contains-add_node none ix.network max_memory sid level sid))
          there in
      let p' = rw (length-keys g.nodes) at p in
      (
        record r { updated = true },
        add_new ix r sid level vec e p',
        record {
          ready = record {
            well_formed = grown.ready.well_formed;
            live = grown.ready.live;
            free = grown.ready.free;
            unused = grown.ready.unused;
            cached = grown.ready.cached;
          };
          nodes =
              λ n. grown.same_nodes n ∙ contains-add_node none ix.network max_memory sid level n;
          vectors = λ n.
              ap (λ v. or_nil (lookup n v)) grown.same_vectors
              ∙ ground (arith, lookup-insert sid n vec ix.vectors);
        },
      )
