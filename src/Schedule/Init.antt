-- ===== src/Schedule/Init.antt =====
-- src/schedule/DefaultSchedule.cpp, `init`: the search for an id.
use gqlite.Prelude.{
  ℕ, zero, suc, ◌+◌, ◌-◌, ◌%◌, ◌<◌, ◌≡◌, refl, sym, true, false, none, some, List, [], ◌∷◌, ◌==◌,
  if◌then◌else◌, arith,
}
use gqlite.Prelude.Eq.{nat_eq}
use gqlite.Prelude.Maps.{lookup, contains}
use gqlite.Schedule.{Schedule, Coroutine, ready, first_free, put, registered, init, id_fuel}

first_free-none :
    (fuel id : ℕ) (m : List (ℕ × Coroutine))
    → id < 256
    → first_free fuel id m ≡ none
    → (j : ℕ) → j < fuel
    → contains ((id + j) % 256) m ≡ true
unfolding first_free
first_free-none zero id m lt h j lj = ground arith
first_free-none (suc fuel) id m lt h zero lj =
    let same : (id + 0) % 256 ≡ id = omega arith in rw same (ground arith)
first_free-none (suc fuel) id m lt h (suc j) lj =
    let same : (id + suc j) % 256 ≡ ((id + 1) % 256 + j) % 256 = omega arith in
    rw same (first_free-none fuel ((id + 1) % 256) m (omega arith) (ground arith) j (omega arith))

first_free-some :
    (fuel id : ℕ) (m : List (ℕ × Coroutine)) (k : ℕ)
    → id < 256
    → first_free fuel id m ≡ some k
    → (k < 256) × (contains k m ≡ false)
unfolding first_free
first_free-some zero id m k lt h = ground arith
first_free-some (suc fuel) id m k lt h = ground (arith, first_free-some fuel ((id + 1) % 256) m k)

lookup-put :
    (k j : ℕ) (c : Coroutine) (m : List (ℕ × Coroutine))
    → contains k m ≡ false
    → lookup j (put k c m) ≡ (if k == j then some c else lookup j m)
unfolding lookup put contains
lookup-put k j c [] h = refl
lookup-put k j c ((i, d) ∷ m) h = ground (arith, lookup-put k j c m)

abbrev pub new_coroutine : ℕ → Coroutine
new_coroutine id = record { id = id; status = ready; slices = 0 }

-- Where some id is free, the search of `init` ends, and registers the coroutine as ready under an id
-- that no coroutine had, leaving the others alone.
pub init-free :
    (s : Schedule) (k : ℕ)
    → k < 256
    → contains k s.coroutines ≡ false
    → (id : ℕ) × (s' : Schedule) × (init s ≡ some s')
      × (id < 256)
      × (contains id s.coroutines ≡ false)
      × ((j : ℕ)
          → lookup j s'.coroutines
            ≡ (if id == j then some (new_coroutine id) else lookup j s.coroutines))
unfolding init
init-free s k lt free =
    let start = (s.max_id + 1) % 256 in
    elim (first_free id_fuel start s.coroutines)
        as (λ r.
          first_free id_fuel start s.coroutines ≡ r
          → (id : ℕ) × (s' : Schedule) × (registered s r ≡ some s')
            × (id < 256)
            × (contains id s.coroutines ≡ false)
            × ((j : ℕ)
                → lookup j s'.coroutines
                  ≡ (if id == j then some (new_coroutine id) else lookup j s.coroutines))) [
                    | none ↦ λ e.
                        let at = (k + 256 - start) % 256 in
                        let same : (start + at) % 256 ≡ k = omega arith in
                        let taken : contains k s.coroutines ≡ true = rw (sym same) (
                          first_free-none id_fuel start s.coroutines (omega arith) e at
                            (omega arith)) in
                        ground arith
                    | some id ↦ λ e.
                        let (small, fresh) =
                          first_free-some id_fuel start s.coroutines id (omega arith) e in
                        (
                          id,
                          _,
                          refl,
                          small,
                          fresh,
                          λ j. lookup-put id j (new_coroutine id) s.coroutines fresh,
                        )
                  ]
      refl

first_free-full :
    (fuel id : ℕ) (m : List (ℕ × Coroutine))
    → ((k : ℕ) → k < 256 → contains k m ≡ true)
    → id < 256
    → first_free fuel id m ≡ none
unfolding first_free
first_free-full zero id m full lt = refl
first_free-full (suc fuel) id m full lt =
    rw (full id lt) (first_free-full fuel ((id + 1) % 256) m full (omega arith))

-- Where all 256 ids are taken, the search of `init` ends after no number of rounds.
pub init-full :
    (s : Schedule) (rounds : ℕ)
    → ((k : ℕ) → k < 256 → contains k s.coroutines ≡ true)
    → (first_free rounds ((s.max_id + 1) % 256) s.coroutines ≡ none) × (init s ≡ none)
unfolding init
init-full s rounds full = (
  first_free-full rounds ((s.max_id + 1) % 256) s.coroutines full (omega arith),
  rw (first_free-full id_fuel ((s.max_id + 1) % 256) s.coroutines full (omega arith)) refl,
)
