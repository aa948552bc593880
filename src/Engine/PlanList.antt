-- ===== src/Engine/PlanList.antt =====
-- include/VirtualEngine.h, `PlanList`: the circular list on the heap, as the plans that it holds.
use gqlite.Prelude.{
  ℕ, suc, ◌+◌, ◌≤◌, ◌<◌, ◌≡◌, refl, Bool, some, List, [], ◌∷◌, ◌++◌, ◌==◌, if◌then◌else◌, length,
  length-append, get_elem?, get_elem?-append_left, get_elem?-append_at, arith,
}
use gqlite.Engine.{Plans, sentinel, add}

module _ {P : Type 0} where
  -- Node i + 1 holds the plan i, and the nodes are linked both ways and closed at the sentinel.
  pub record Represents (l : Plans P) (ps : List P) : Type 0 where
    pub allocated : l.allocated ≡ length ps + 1
    pub last : (l.nodes 0).parent ≡ length ps
    pub next : (i : ℕ) → i ≤ length ps → (l.nodes i).next ≡ (if i == length ps then 0 else i + 1)
    pub parent : (i : ℕ) → i < length ps → (l.nodes (suc i)).parent ≡ i
    pub plans : (i : ℕ) → i < length ps → (l.nodes (suc i)).plan ≡ get_elem? ps i

  pub sentinel-Represents : Represents sentinel []
  sentinel-Represents = record {
    allocated = refl;
    last = refl;
    next = (λ i lt. ground arith);
    parent = (λ i lt. ground arith);
    plans = λ i lt. ground arith;
  }

  at_end : (ps : List P) (p : P) (i : ℕ) → i ≡ length ps → get_elem? (ps ++ p ∷ []) i ≡ some p
  at_end ps p i h = rw h (get_elem?-append_at ps [] p)

  -- Adding a plan to a list that represents some plans gives one that represents these plans and then
  -- the new one.
  pub add-Represents :
      (l : Plans P) (ps : List P) (p : P) (threadable : Bool)
      → Represents l ps
      → Represents (add l p threadable) (ps ++ p ∷ [])
  unfolding add
  add-Represents l ps p threadable r = record {
    allocated = omega (arith, r.allocated, length-append ps (p ∷ []));
    last = ground (arith, r.allocated, r.last, length-append ps (p ∷ []));
    next = (λ i lt. ground (arith, r.allocated, r.last, r.next i, length-append ps (p ∷ [])));
    parent = (λ i lt. ground (arith, r.allocated, r.last, r.parent i, length-append ps (p ∷ [])));
    plans = λ i lt. ground (
      arith,
      r.allocated,
      r.last,
      r.plans i,
      length-append ps (p ∷ []),
      get_elem?-append_left ps (p ∷ []) i,
      at_end ps p i,
    );
  }
