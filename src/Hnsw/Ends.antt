-- ===== src/Hnsw/Ends.antt =====
-- src/operand/query/HNSW.cpp: the loop of `queryLayer` comes to its end.
use gqlite.Prelude.{
  ℕ, zero, suc, ◌+◌, ◌≤◌, ◌<◌, ◌≡◌, refl, ap, true, false, ◌||◌, List, [], ◌∷◌, ==_iff, ltb,
  if◌then◌else◌, length, All, arith, Bool-cases, inl, inr,
}
use gqlite.Sorted.{add_unique, member, member-add_unique}
use gqlite.Hnsw.{
  Detail, Metric, put_near, rbegin, add_detail, erase_detail, Search, trim, look, look_all, rounds,
  query_layer,
}
use gqlite.Hnsw.Reach.{
  All-add_unique, All-member, List-cases, candidates-trim, elements-trim, Keeps, look_all-Keeps,
  round,
}

-- How many of the nodes were not visited.
unfoldable pub left : List ℕ → List ℕ → ℕ
left visited [] = 0
left visited (x ∷ xs) = (if member x visited then 0 else 1) + left visited xs

left_none : (nodes : List ℕ) → left [] nodes ≡ length nodes
unfolding left member
left_none [] = refl
left_none (x ∷ xs) = omega (arith, left_none xs)

left_fewer :
    (visited nodes : List ℕ) (n : ℕ) → left (add_unique visited n).0 nodes ≤ left visited nodes
unfolding left
left_fewer visited [] n = omega arith
left_fewer visited (x ∷ xs) n =
    ground (arith, left_fewer visited xs n, member-add_unique visited n x)

left_one_fewer :
    (visited nodes : List ℕ) (n : ℕ)
    → member n visited ≡ false
    → member n nodes ≡ true
    → left (add_unique visited n).0 nodes + 1 ≤ left visited nodes
unfolding left member
left_one_fewer visited [] n h m = absurd (cc)
left_one_fewer visited (x ∷ xs) n h m = ground (
  arith,
  left_one_fewer visited xs n h,
  left_fewer visited xs n,
  member-add_unique visited n x,
  ==_iff x n,
)

module _ {D : Type 0} (M : Metric D) where
  length-put_near : (d : D) (n : ℕ) (l : List (D × ℕ)) → length (put_near M d n l) ≤ length l + 1
  unfolding put_near
  length-put_near d n [] = omega arith
  length-put_near d n ((e, m) ∷ rest) = ground (arith, length-put_near d n rest)

  length-add_detail :
      (l : List (Detail D)) (d : Detail D) → length (add_detail M l d) ≤ length l + 1
  unfolding add_detail
  length-add_detail [] d = omega arith
  length-add_detail (x ∷ xs) d = ground (arith, length-add_detail xs d)

  length-erase_detail :
      (l : List (Detail D)) (d : Detail D) → length (erase_detail M l d) ≤ length l
  unfolding erase_detail
  length-erase_detail [] d = omega arith
  length-erase_detail (x ∷ xs) d = ground (arith, length-erase_detail xs d)

  module _ (vector : ℕ → List D) (neighborhood : ℕ → List ℕ) (q : List D) (top_k : ℕ)
      (nodes : List ℕ) where
    -- The candidates and the nodes that are not visited are no more, nor are the elements and these.
    record Shrinks (s s' : Search D) : Type 0 where
      pub open_nodes :
          length s'.candidates + left s'.visited nodes ≤ length s.candidates + left s.visited nodes
      pub found_nodes :
          length s'.elements + left s'.visited nodes ≤ length s.elements + left s.visited nodes

    visited-trim : (s : Search D) → (trim M vector neighborhood q top_k s).visited ≡ s.visited
    unfolding trim
    visited-trim s = ground arith

    length-elements-trim :
        (s : Search D) → length (trim M vector neighborhood q top_k s).elements ≤ length s.elements
    length-elements-trim s = elim (elements-trim M (λ _. Unit) vector neighborhood q top_k s) [
      | inl e ↦ rw e (omega arith)
      | inr (d, e) ↦ rw e (length-erase_detail s.elements d)
    ]

    look-Shrinks :
        (far : D) (s : Search D) (n : ℕ)
        → member n nodes ≡ true
        → Shrinks s (look M vector neighborhood q top_k far s n)
    unfolding look
    look-Shrinks far s n m =
        let near = M.distance2 (vector n) q in
        let taken : Search D = record s {
          visited = (add_unique s.visited n).0;
          candidates = put_near M near n s.candidates;
          nearest = put_near M near n s.nearest;
          elements = add_detail M s.elements (n, (near, vector n));
        } in
        elim (Bool-cases (member n s.visited)) [
          | inl e ↦ rw (e, look) (record { open_nodes = omega arith; found_nodes = omega arith })
          | inr e ↦
              let fewer = left_one_fewer s.visited nodes n e m in
              elim (Bool-cases (M.below near far || ltb (length s.nearest) top_k)) [
                | inl f ↦
                    rw (e, look)
                      (rw (f, look)
                        (record {
                          open_nodes =
                              rw (candidates-trim M (λ _. Unit) vector neighborhood q top_k taken) (
                                rw (visited-trim taken)
                                  (omega (arith, fewer, length-put_near near n s.candidates)));
                          found_nodes = rw (visited-trim taken) (
                              omega (
                                arith,
                                fewer,
                                length-elements-trim taken,
                                length-add_detail s.elements (n, (near, vector n)),
                              ));
                        }))
                | inr f ↦
                    rw (e, look)
                      (rw (f, look)
                        (record {
                          open_nodes = omega (arith, fewer);
                          found_nodes = omega (arith, fewer);
                        }))
              ]
        ]

    look_all-Shrinks :
        (far : D) (ns : List ℕ) (s : Search D)
        → All (λ n. member n nodes ≡ true) ns
        → Shrinks s (look_all M vector neighborhood q top_k far s ns)
    unfolding look_all
    look_all-Shrinks far [] s h = record { open_nodes = omega arith; found_nodes = omega arith }
    look_all-Shrinks far (n ∷ ns) s (h, hs) =
        let a = look-Shrinks far s n h in
        let b = look_all-Shrinks far ns (look M vector neighborhood q top_k far s n) hs in
        record {
          open_nodes = omega (arith, a.open_nodes, b.open_nodes);
          found_nodes = omega (arith, a.found_nodes, b.found_nodes);
        }

    -- With more rounds than open nodes the loop ends by its test, with no more elements than nodes.
    record Finishes (fuel : ℕ) (s : Search D) : Type 0 where
      pub ended : (rounds M vector neighborhood q top_k fuel s).1 ≡ true
      pub few :
          length (rounds M vector neighborhood q top_k fuel s).0.elements
          ≤ length s.elements + left s.visited nodes

    module _
        (closed : (m n : ℕ)
          → member m nodes ≡ true
          → member n (neighborhood m) ≡ true
          → member n nodes ≡ true) where
      next_round :
          (fuel : ℕ) (s : Search D)
          → Keeps M (λ n. member n nodes ≡ true) s
          → length s.candidates + left s.visited nodes < suc fuel
          → (d c : D) (elm n : ℕ) (rest others : List (D × ℕ)) → s.candidates ≡ (d, elm) ∷ rest
          → s.nearest ≡ (c, n) ∷ others
          → ((s' : Search D)
              → Keeps M (λ n. member n nodes ≡ true) s'
              → length s'.candidates + left s'.visited nodes < fuel
              → Finishes fuel s')
          → Finishes (suc fuel) s
      next_round fuel s k h d c elm n rest others e f ih =
          let P : ℕ → Type 0 = λ m. member m nodes ≡ true in
          let far = M.distance2 q (vector (rbegin c n others).1) in
          let popped : Search D = record s { candidates = rest } in
          let ns = (add_unique (neighborhood elm) elm).0 in
          let k0 = k.all_candidates in
          let k1 = rw e at k0 in
          let kp : Keeps M P popped = record {
            all_candidates = k1.1;
            all_elements = k.all_elements;
          } in
          let all : All P ns =
            All-add_unique P (neighborhood elm) elm k1.0
              (All-member P (neighborhood elm) (λ m g. closed elm m k1.0 g)) in
          let size : length s.candidates ≡ suc (length rest) = ap length e in
          let s' = look_all M vector neighborhood q top_k far popped ns in
          elim (round M P vector neighborhood q top_k fuel s d c elm n rest others e f) [
            | inl g ↦
                let a = look_all-Shrinks far ns popped all in
                let r =
                  ih s' (look_all-Keeps M P vector neighborhood q top_k far ns popped all kp)
                    (omega (arith, h, size, a.open_nodes)) in
                record { ended = rw g (r.ended); few = rw g (omega (arith, r.few, a.found_nodes)) }
            | inr g ↦ record { ended = rw g refl; few = rw g (omega arith) }
          ]

      rounds-Finishes :
          (fuel : ℕ) (s : Search D)
          → Keeps M (λ n. member n nodes ≡ true) s
          → length s.candidates + left s.visited nodes < fuel
          → Finishes fuel s
      unfolding rounds
      rounds-Finishes zero s k h = elim h [ ]
      rounds-Finishes (suc fuel) s k h = elim (List-cases s.candidates) [
        | inl e ↦ record { ended = rw (e, rounds) refl; few = rw (e, rounds) (omega arith) }
        | inr ((d, elm), rest, e) ↦ elim (List-cases s.nearest) [
          | inl f ↦ record {
            ended = rw (e, rounds) (rw (f, rounds) refl);
            few = rw (e, rounds) (rw (f, rounds) (omega arith));
          }
          | inr ((c, n), others, f) ↦
              next_round fuel s k h d c elm n rest others e f (λ s'. rounds-Finishes fuel s')
        ]
      ]

-- Where the entry point is a node and the neighbours of nodes are nodes, the search of a layer ends
-- with two more rounds than there are nodes, and finds at most as many elements as there are nodes.
pub query_layer-ends :
    {D : Type 0} (M : Metric D) (vector : ℕ → List D) (neighborhood : ℕ → List ℕ) (q : List D)
    (top_k ep : ℕ) (nodes : List ℕ)
    → member ep nodes ≡ true
    → ((m n : ℕ) → member m nodes ≡ true → member n (neighborhood m) ≡ true → member n nodes ≡ true)
    → let r = query_layer M vector neighborhood q top_k (suc (suc (length nodes))) ep in
      (r.1 ≡ true) × (length r.0 ≤ length nodes)
unfolding query_layer
query_layer-ends {D} M vector neighborhood q top_k ep nodes h closed =
    let d = M.distance2 q (vector ep) in
    let s : Search D = record {
      visited = [];
      candidates = (d, ep) ∷ [];
      nearest = (d, ep) ∷ [];
      elements = [];
    } in
    let r =
      rounds-Finishes M vector neighborhood q top_k nodes closed (suc (suc (length nodes))) s
        (record { all_candidates = (h, tt); all_elements = tt }) (omega (arith, left_none nodes)) in
    (r.ended, omega (arith, r.few, left_none nodes))
