-- ===== src/Tests/Coroutines.antt =====
-- The schedule at concrete inputs.
use gqlite.Prelude.{ℕ, ◌<◌, ◌≡◌, refl, Bool, false, some, [], ◌∷◌, ◌==◌, if◌then◌else◌, All, arith}
use gqlite.Prelude.Eq.{nat_eq}
use gqlite.Prelude.Maps.{lookup, contains}
use gqlite.Schedule.{Schedule, ready, suspend, init, run}
use gqlite.Schedule.Init.{init-free, new_coroutine}
use gqlite.Schedule.Sweep.{run-ends, IsDue, DueAs, EndsWithin}

-- Two coroutines: one ready, the other suspended after one slice.
abbrev two_ready : Schedule
two_ready = record {
  current = 0;
  max_id = 2;
  coroutines =
      (1, record { id = 1; status = ready; slices = 0 })
      ∷ (2, record { id = 2; status = suspend; slices = 1 })
      ∷ [];
  cores = 0;
}

three_free : contains 3 two_ready.coroutines ≡ false
unfolding contains lookup
three_free = refl

init-free_example :
    (id : ℕ) × (s' : Schedule) × (init two_ready ≡ some s')
    × (id < 256)
    × (contains id two_ready.coroutines ≡ false)
    × ((j : ℕ)
        → lookup j s'.coroutines
          ≡ (if id == j then some (new_coroutine id) else lookup j two_ready.coroutines))
init-free_example = init-free two_ready 3 (omega arith) three_free

-- Every coroutine ends in its fourth slice.
abbrev in_four : ℕ → ℕ → Bool
in_four id slice = slice == 3

due : All (IsDue in_four 4) two_ready.coroutines
unfolding IsDue DueAs EndsWithin
due = ((3, omega arith, omega arith, refl), ((3, omega arith, omega arith, refl), tt))

run-ends_example : (s' : Schedule) × (run in_four 6 two_ready ≡ some s') × (s'.coroutines ≡ [])
run-ends_example = run-ends in_four 4 two_ready refl due
