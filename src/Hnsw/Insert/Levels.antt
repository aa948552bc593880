-- ===== src/Hnsw/Insert/Levels.antt =====
-- src/operand/query/HNSW.cpp: the loop of `addNode2Edge` over the levels.
use gqlite.Prelude.{
  ℕ, zero, suc, ◌+◌, ◌*◌, ◌-◌, ◌^◌, ◌%◌, ◌≤◌, ◌<◌, ◌≡◌, ap, ◌∙◌, sym, true, some, List, arith, leb,
  length, if◌then◌else◌,
}
use gqlite.Prelude.Eq.{nat_eq}
use gqlite.Sorted.{member}
use gqlite.Hnsw.{Metric, entry}
use gqlite.Hnsw.Insert.{Index, search, near_of, add_level, add_levels, climb, add_node2edge}
use gqlite.Hnsw.Insert.Searched.{select_lem}
use gqlite.Hnsw.Insert.Clipped.{HasDistance}
use gqlite.Hnsw.Insert.Sound.{
  IsReady, Grows, Grows-le, Grows-trans, Lists, Grows-Lists, connect_all_lem,
}

module _ {D : Type 0} (M : Metric D) (zero_d : D) (m : ℕ) (nodes : List ℕ) where
  module _ (disk : ℕ → ℕ → List ℕ) (ef : ℕ) where
    abbrev fuel : ℕ
    fuel = suc (suc (length nodes))

    add_level_lem :
        (ix : Index D) (node : ℕ) (vec : List D) (ep level l e : ℕ)
        → IsReady HasDistance ix
        → Lists nodes ix
        → ix.ids.cur + length nodes < 2 ^ 64
        → level < 4
        → member node nodes ≡ true
        → entry ix.cache ≡ some (l, e)
        → (ix' : Index D) × (add_level M zero_d disk m ef fuel ix node vec ep level ≡ some ix')
          × Grows ix ix' (length nodes)
    unfolding add_level
    add_level_lem ix node vec ep level l e ok same room lt hn he =
        let (ns, p, all, few) =
          select_lem M zero_d disk m ef nodes ix ok.well_formed same
            (λ i n h. sym (same n) ∙ ok.cached i n h) vec (m % 256) l e he in
        let near = near_of zero_d (search M zero_d disk m ef fuel ix vec ep ef level) in
        let (ix', q, g) =
          connect_all_lem M zero_d m nodes ns ix node level near ok same (omega (arith, room, few))
            lt hn all in
        (ix', rw (p, add_level) q, Grows-le ix ix' (length ns) (length nodes) few g)

    add_levels_lem :
        (level : ℕ) (ix : Index D) (node : ℕ) (vec : List D) (ep l e : ℕ)
        → IsReady HasDistance ix
        → Lists nodes ix
        → ix.ids.cur + suc level * length nodes < 2 ^ 64
        → level < 4
        → member node nodes ≡ true
        → entry ix.cache ≡ some (l, e)
        → (ix' : Index D) × (add_levels M zero_d disk m ef fuel ix node vec ep level ≡ some ix')
          × Grows ix ix' (suc level * length nodes)
    unfolding add_levels
    add_levels_lem zero ix node vec ep l e ok same room lt hn he =
        let (ix', p, g) =
          add_level_lem ix node vec ep 0 l e ok same (omega (arith, room)) lt hn he in
        (ix', p, Grows-le ix ix' (length nodes) (1 * length nodes) (omega arith) g)
    add_levels_lem (suc level) ix node vec ep l e ok same room lt hn he =
        let (ix1, p, g) =
          add_level_lem ix node vec ep (suc level) l e ok same (grind (arith, room)) lt hn he in
        let (ix2, q, g') =
          add_levels_lem level ix1 node vec ep l e g.ready
            (Grows-Lists nodes ix ix1 (length nodes) g same) (grind (arith, room, g.few_ids))
            (omega (arith, lt)) hn (ap entry g.same_cache ∙ he) in
        (
          ix2,
          rw (p, add_levels) q,
          Grows-le ix ix2 (length nodes + suc level * length nodes) (suc (suc level) * length nodes)
              (grind arith) (Grows-trans ix ix1 ix2 (length nodes) (suc level * length nodes) g g'),
        )

    -- A node of the network is connected on its levels: the four levels take at most as many ids as four
    -- times the nodes.
    pub add_node2edge_lem :
        (ix : Index D) (node : ℕ) (vec : List D) (new_level l e : ℕ)
        → IsReady HasDistance ix
        → Lists nodes ix
        → ix.ids.cur + 4 * length nodes < 2 ^ 64
        → new_level < 4
        → member node nodes ≡ true
        → entry ix.cache ≡ some (l, e)
        → (ix' : Index D) × (add_node2edge M zero_d disk m ef fuel ix node vec new_level ≡ some ix')
          × Grows ix ix' (4 * length nodes)
    unfolding add_node2edge
    add_node2edge_lem ix node vec new_level l e ok same room lt hn he =
        let (start, ep) = climb M zero_d disk m ef fuel ix vec (new_level + 1 - l) l l e in
        let level = if leb start new_level then start else new_level in
        let below : level ≤ new_level = ground arith in
        let most : suc level * length nodes ≤ 4 * length nodes = grind (arith, below, lt) in
        let (ix', p, g) =
          add_levels_lem level ix node vec ep l e ok same (omega (arith, room, most))
            (omega (arith, below, lt)) hn he in
        (
          ix',
          rw (he, add_node2edge) p,
          Grows-le ix ix' (suc level * length nodes) (4 * length nodes) most g,
        )
