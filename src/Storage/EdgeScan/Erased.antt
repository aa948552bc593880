-- ===== src/Storage/EdgeScan/Erased.antt =====
-- src/StorageEngine/StorageEngine.cpp: what the scan for the edges of a vertex leaves of the map.
use gqlite.Prelude.{
  ℕ, ◌≡◌, ◌≢◌, refl, ◌∙◌, Bool, true, false, ◌&&◌, ◌||◌, Option, none, some, List, [], ◌∷◌,
  if◌then◌else◌, arith, Bool-cases, inl, inr,
}
use gqlite.Prelude.Eq.{bytes_beq, bytes_beq_iff, bytes_eq}
use gqlite.Prelude.Maps.{lookup, contains}
use gqlite.Prelude.Options.{◌>>=◌}
use gqlite.EdgeId.{EdgeId, to_edge_id}
use gqlite.Storage.Tables.{Name}
use gqlite.Storage.Backend.{Kv, ordinal, IsLawful, is_some}
use gqlite.Storage.{Storage, get_or_create_handle}
use gqlite.Storage.View.{IsConsistent, get_or_create_handle-IsHandle}
use gqlite.Storage.EdgeScan.{erase_matching, scan_edges, is_match, del_edges_u64}

-- The keys of the map are edge ids, and the test answers for each of them as `f` does.
abbrev pub Answers : (EdgeId → Option Bool) → (List ℕ → Bool) → List (List ℕ × List ℕ) → Type 0
Answers test f ps = (k : List ℕ) → contains k ps ≡ true → (to_edge_id k >>= test) ≡ some (f k)

contains_head : (k v : List ℕ) (ps : List (List ℕ × List ℕ)) → contains k ((k, v) ∷ ps) ≡ true
unfolding contains lookup
contains_head k v ps = ground (arith, bytes_beq_iff k k)

contains_none : (k : List ℕ) → contains {V = List ℕ} k [] ≡ false
unfolding contains lookup
contains_none k = refl

contains_tail :
    (j k v : List ℕ) (ps : List (List ℕ × List ℕ))
    → contains j ((k, v) ∷ ps) ≡ (bytes_beq k j || contains j ps)
unfolding contains lookup
contains_tail j k v ps = ground arith

module _ (K : Kv) (content : K.State → Name → List ℕ → Option (List ℕ)) (laws : IsLawful K content)
    (test : EdgeId → Option Bool) (f : List ℕ → Bool) (n : Name) (h : ℕ) (ne : h ≢ 0) where
  -- What the loop leaves: the map `n` without the keys of the list that match.
  pub record IsErased (t : K.State) (ps : List (List ℕ × List ℕ)) (t' : K.State) : Type 0 where
    pub erased_content :
        (m j : List ℕ)
        → content t' m j ≡ (if bytes_beq n m && (contains j ps && f j) then none else content t m j)
    pub erased_open : (m : Name) → K.open_map t' m ≡ K.open_map t m

  erase_matching_lem :
      (ps : List (List ℕ × List ℕ)) (t : K.State)
      → K.open_map t n ≡ h
      → Answers test f ps
      → (t' : K.State) × (erase_matching K test t h ps ≡ some t') × IsErased t ps t'
  unfolding erase_matching
  erase_matching_lem [] t o a = (
    t,
    refl,
    record { erased_content = λ m j. ground (arith, contains_none j); erased_open = λ m. refl },
  )
  erase_matching_lem ((k, v) ∷ ps) t o a =
      let a' : Answers test f ps = λ j c. a j (rw (contains_tail j k v ps) (ground (arith, c))) in
      let q : (to_edge_id k >>= test) ≡ some (f k) = a k (contains_head k v ps) in
      elim (Bool-cases (f k)) [
        | inl e ↦
            let t1 = (K.erase t h k).1 in
            let r : (K.erase t h k).0 ≡ some (is_some (content t n k)) =
              laws.erase_lem t h n k o ne in
            let (t', p, ih) = erase_matching_lem ps t1 (laws.erase_open t h k n ∙ o) a' in
            (
              t',
              rw (q, e, erase_matching) (rw (r, erase_matching) p),
              record {
                erased_content = λ m j. ground (
                  arith,
                  ih.erased_content m j,
                  laws.erase_content t h n k m j o ne,
                  contains_tail j k v ps,
                  bytes_beq_iff k j,
                  e,
                );
                erased_open = λ m. ih.erased_open m ∙ laws.erase_open t h k m;
              },
            )
        | inr e ↦
            let (t', p, ih) = erase_matching_lem ps t o a' in
            (
              t',
              rw (q, e, erase_matching) p,
              record {
                erased_content = λ m j.
                    ground
                      (arith, ih.erased_content m j, contains_tail j k v ps, bytes_beq_iff k j, e);
                erased_open = ih.erased_open;
              },
            )
      ]

module _ (K : Kv) (content : K.State → Name → List ℕ → Option (List ℕ))
    (laws : IsLawful K content) where
  -- Deleting the edges of a vertex with a number, from a map that opens in a lawful store and whose
  -- keys are edge ids with a defined test: the edges that match are gone, whichever end was asked for,
  -- and all else is as before.
  pub del_edges_u64_lem :
      (s : Storage K) (n : Name) (key : ℕ) (from : Bool) (f : List ℕ → Bool)
      → IsConsistent s
      → (get_or_create_handle s n ordinal).0 ≢ 0
      → Answers
          (is_match key)
          f
          (K.pairs (get_or_create_handle s n ordinal).1.txn (get_or_create_handle s n ordinal).0)
      → (s' : Storage K) × (del_edges_u64 s n key from ≡ some s')
        × ((m j : List ℕ)
            → content s'.txn m j ≡ (if bytes_beq n m && f j then none else content s.txn m j))
  unfolding del_edges_u64 scan_edges
  del_edges_u64_lem s n key from f ok ne a =
      let r = get_or_create_handle s n ordinal in
      let p = get_or_create_handle-IsHandle K content laws s n ordinal ok in
      let (t', q, e) =
        erase_matching_lem K content laws (is_match key) f n r.0 ne (K.pairs r.1.txn r.0) r.1.txn
          (p.handle_open ne) a in
      (
        record (r.1) { txn = t' },
        ground (arith, q),
        λ m j. ground (
          arith,
          e.erased_content m j,
          p.handle_content m j,
          bytes_beq_iff n m,
          laws.pairs_lem r.1.txn r.0 n j (p.handle_open ne) ne,
        ),
      )
