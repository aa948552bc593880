-- ===== src/Hnsw/Reach.antt =====
-- src/operand/query/HNSW.cpp: the nodes that `queryLayer` finds.
use gqlite.Prelude.{
  ℕ, zero, suc, ◌≡◌, refl, true, ◌||◌, ◌⊎◌, List, [], ◌∷◌, ◌==◌, ltb, length, All, arith,
  Bool-cases, inl, inr,
}
use gqlite.Sorted.{add_unique, member}
use gqlite.Hnsw.{
  Detail, Metric, put_near, rbegin, add_detail, erase_detail, Search, trim, look, look_all, rounds,
  query_layer,
}

-- The nodes that are reached from `ep` by neighbours of the layer.
pub data Reaches (neighborhood : ℕ → List ℕ) (ep : ℕ) : ℕ → Type 0 where
  here : Reaches neighborhood ep ep
  onward :
      (m n : ℕ)
      → Reaches neighborhood ep m
      → member n (neighborhood m) ≡ true
      → Reaches neighborhood ep n

pub All-add_unique :
    (P : ℕ → Type 0) (xs : List ℕ) (n : ℕ) → P n → All P xs → All P (add_unique xs n).0
unfolding add_unique
All-add_unique P [] n p h = (p, tt)
All-add_unique P (x ∷ xs) n p (px, h) = elim (Bool-cases (ltb x n)) [
  | inl e ↦ rw (e, add_unique) (px, All-add_unique P xs n p h)
  | inr e ↦ elim (Bool-cases (x == n)) [
    | inl q ↦ rw (e, q, add_unique) (px, h)
    | inr q ↦ rw (e, q, add_unique) (p, (px, h))
  ]
]

pub All-member : (P : ℕ → Type 0) (xs : List ℕ) → ((n : ℕ) → member n xs ≡ true → P n) → All P xs
unfolding member
All-member P [] h = tt
All-member P (x ∷ xs) h = (h x (ground (arith)), All-member P xs (λ n e. h n (ground (arith, e))))

pub List-cases : {A : Type 0} (l : List A) → (l ≡ []) ⊎ ((x : A) × (xs : List A) × (l ≡ x ∷ xs))
List-cases [] = inl refl
List-cases (x ∷ xs) = inr (x, xs, refl)

module _ {D : Type 0} (M : Metric D) (P : ℕ → Type 0) where
  abbrev Near : D × ℕ → Type 0
  Near (d, n) = P n

  abbrev Found : Detail D → Type 0
  Found (n, _) = P n

  All-put_near : (d : D) (n : ℕ) (l : List (D × ℕ)) → P n → All Near l → All Near (put_near M d n l)
  unfolding put_near
  All-put_near d n [] p h = (p, tt)
  All-put_near d n ((e, m) ∷ rest) p (pm, h) = elim (Bool-cases (M.less e d)) [
    | inl q ↦ rw (q, put_near) (pm, All-put_near d n rest p h)
    | inr q ↦ elim (Bool-cases (M.less d e)) [
      | inl r ↦ rw (q, r, put_near) (p, (pm, h))
      | inr r ↦ rw (q, r, put_near) (p, h)
    ]
  ]

  All-add_detail :
      (l : List (Detail D)) (d : Detail D) → Found d → All Found l → All Found (add_detail M l d)
  unfolding add_detail
  All-add_detail [] d p h = (p, tt)
  All-add_detail (x ∷ xs) d p (px, h) = elim (Bool-cases (M.before x d)) [
    | inl q ↦ rw (q, add_detail) (px, All-add_detail xs d p h)
    | inr q ↦ elim (Bool-cases (M.same x d)) [
      | inl r ↦ rw (q, r, add_detail) (px, h)
      | inr r ↦ rw (q, r, add_detail) (p, (px, h))
    ]
  ]

  pub All-erase_detail :
      (l : List (Detail D)) (d : Detail D) → All Found l → All Found (erase_detail M l d)
  unfolding erase_detail
  All-erase_detail [] d h = tt
  All-erase_detail (x ∷ xs) d (px, h) = elim (Bool-cases (M.before x d)) [
    | inl q ↦ rw (q, erase_detail) (px, All-erase_detail xs d h)
    | inr q ↦ elim (Bool-cases (M.same x d)) [
      | inl r ↦ rw (q, r, erase_detail) h
      | inr r ↦ rw (q, r, erase_detail) (px, h)
    ]
  ]

  -- Every node that the search holds has the property.
  pub record Keeps (s : Search D) : Type 0 where
    pub all_candidates : All Near s.candidates
    pub all_elements : All Found s.elements

  module _ (vector : ℕ → List D) (neighborhood : ℕ → List ℕ) (q : List D) (top_k : ℕ) where
    pub candidates-trim :
        (s : Search D) → (trim M vector neighborhood q top_k s).candidates ≡ s.candidates
    unfolding trim
    candidates-trim s = ground arith

    pub elements-trim :
        (s : Search D)
        → ((trim M vector neighborhood q top_k s).elements ≡ s.elements)
          ⊎ ((d : Detail D) × ((trim M vector neighborhood q top_k s).elements
                ≡ erase_detail M s.elements d))
    unfolding trim
    elements-trim s = elim (List-cases s.nearest) [
      | inl e ↦ inl (ground (arith, e))
      | inr ((d, n), rest, e) ↦ elim (Bool-cases (ltb top_k (length s.nearest))) [
        | inl f ↦ inr (((rbegin d n rest).1, ((rbegin d n rest).0, [])), ground (arith, e, f))
        | inr f ↦ inl (ground (arith, e, f))
      ]
    ]

    trim-Keeps : (s : Search D) → Keeps s → Keeps (trim M vector neighborhood q top_k s)
    trim-Keeps s h = record {
      all_candidates = rw (candidates-trim s) (h.all_candidates);
      all_elements = elim (elements-trim s) [
        | inl e ↦ rw e (h.all_elements)
        | inr (d, e) ↦ rw e (All-erase_detail s.elements d h.all_elements)
      ];
    }

    pub look-Keeps :
        (far : D) (s : Search D) (n : ℕ)
        → P n
        → Keeps s
        → Keeps (look M vector neighborhood q top_k far s n)
    unfolding look
    look-Keeps far s n p h =
        let near = M.distance2 (vector n) q in
        let taken =
          trim-Keeps
            (record s {
              visited = (add_unique s.visited n).0;
              candidates = put_near M near n s.candidates;
              nearest = put_near M near n s.nearest;
              elements = add_detail M s.elements (n, (near, vector n));
            })
            (record {
              all_candidates = All-put_near near n s.candidates p h.all_candidates;
              all_elements = All-add_detail s.elements (n, (near, vector n)) p h.all_elements;
            }) in
        elim (Bool-cases (member n s.visited)) [
          | inl e ↦ rw (e, look) h
          | inr e ↦ elim (Bool-cases (M.below near far || ltb (length s.nearest) top_k)) [
            | inl f ↦ rw (e, look) (rw (f, look) taken)
            | inr f ↦
                rw (e, look)
                  (rw (f, look)
                    (record { all_candidates = h.all_candidates; all_elements = h.all_elements }))
          ]
        ]

    pub look_all-Keeps :
        (far : D) (ns : List ℕ) (s : Search D)
        → All P ns
        → Keeps s
        → Keeps (look_all M vector neighborhood q top_k far s ns)
    unfolding look_all
    look_all-Keeps far [] s ps h = h
    look_all-Keeps far (n ∷ ns) s (p, ps) h =
        look_all-Keeps far ns (look M vector neighborhood q top_k far s n) ps
          (look-Keeps far s n p h)

    -- One round, for a search with a candidate.
    pub round :
        (fuel : ℕ) (s : Search D) (d c : D) (elm n : ℕ) (rest others : List (D × ℕ))
        → s.candidates ≡ (d, elm) ∷ rest
        → s.nearest ≡ (c, n) ∷ others
        → (rounds M vector neighborhood q top_k (suc fuel) s
            ≡ rounds M vector neighborhood q top_k fuel (
                look_all M vector neighborhood q top_k
                  (M.distance2 q (vector (rbegin c n others).1))
                  (record s { candidates = rest })
                  (add_unique (neighborhood elm) elm).0))
          ⊎ (rounds M vector neighborhood q top_k (suc fuel) s
              ≡ (record s { candidates = rest }, true))
    unfolding rounds
    round fuel s d c elm n rest others e f =
        elim (Bool-cases
          (M.less (M.distance2 q (vector (rbegin c n others).1)) (M.distance2 (vector elm) q))) [
            | inl g ↦ inr (ground (arith, e, f, g))
            | inr g ↦ inl (ground (arith, e, f, g))
          ]

    module _ (closed : (m n : ℕ) → P m → member n (neighborhood m) ≡ true → P n) where
      pub rounds-Keeps :
          (fuel : ℕ) (s : Search D)
          → Keeps s
          → Keeps (rounds M vector neighborhood q top_k fuel s).0
      unfolding rounds
      rounds-Keeps zero s h = h
      rounds-Keeps (suc fuel) s h = elim (List-cases s.candidates) [
        | inl e ↦ rw (e, rounds) h
        | inr ((d, elm), rest, e) ↦ elim (List-cases s.nearest) [
          | inl f ↦ rw (e, rounds) (rw (f, rounds) h)
          | inr ((c, n), others, f) ↦
              let k0 = h.all_candidates in
              let k = rw e at k0 in
              let h' : Keeps (record s { candidates = rest }) = record {
                all_candidates = k.1;
                all_elements = h.all_elements;
              } in
              let ns : All P (add_unique (neighborhood elm) elm).0 =
                All-add_unique P (neighborhood elm) elm k.0
                  (All-member P (neighborhood elm) (λ m g. closed elm m k.0 g)) in
              elim (round fuel s d c elm n rest others e f) [
                | inl g ↦ rw g (
                    rounds-Keeps fuel
                      (look_all M vector neighborhood q top_k
                        (M.distance2 q (vector (rbegin c n others).1))
                        (record s { candidates = rest }) (add_unique (neighborhood elm) elm).0)
                      (look_all-Keeps (M.distance2 q (vector (rbegin c n others).1))
                        (add_unique (neighborhood elm) elm).0 (record s { candidates = rest }) ns
                        h'))
                | inr g ↦ rw g h'
              ]
        ]
      ]

-- Every node that the search of a layer finds is reached from its entry point by neighbours in the
-- layer, however many rounds are made.
pub query_layer-Reaches :
    {D : Type 0} (M : Metric D) (vector : ℕ → List D) (neighborhood : ℕ → List ℕ) (q : List D)
    (top_k fuel ep : ℕ)
    → All
        (λ (d : Detail D). Reaches neighborhood ep d.0)
        (query_layer M vector neighborhood q top_k fuel ep).0
unfolding query_layer
query_layer-Reaches {D} M vector neighborhood q top_k fuel ep =
    let d = M.distance2 q (vector ep) in
    (rounds-Keeps M (Reaches neighborhood ep) vector neighborhood q top_k
      (λ m n p e. onward m n p e) fuel
      (record { visited = []; candidates = (d, ep) ∷ []; nearest = (d, ep) ∷ []; elements = [] })
      (record { all_candidates = (here, tt); all_elements = tt })).all_elements
