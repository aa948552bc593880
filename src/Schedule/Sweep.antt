-- ===== src/Schedule/Sweep.antt =====
-- src/schedule/DefaultSchedule.cpp, `run`: the rounds until every coroutine ended.
use gqlite.Prelude.{
  ℕ, zero, suc, ◌+◌, ◌<◌, ◌≤◌, ◌≡◌, refl, ◌∙◌, Bool, true, false, some, List, [], ◌∷◌,
  if◌then◌else◌, All, arith,
}
use gqlite.Schedule.{
  Status, uninitialize, ready, suspend, running, finish, Coroutine, Schedule, run_slice, resume,
  visit, sweep, current_after, run,
}

-- The coroutine ends within `n` slices from here.
unfoldable pub EndsWithin : (ℕ → ℕ → Bool) → ℕ → Coroutine → Type 0
EndsWithin ends n c = (j : ℕ) × (c.slices ≤ j) × (j < c.slices + n) × (ends c.id j ≡ true)

-- A coroutine that is finished, or can run and ends within `n` slices.
unfoldable pub DueAs : (ℕ → ℕ → Bool) → ℕ → Status → Coroutine → Type 0
DueAs ends n finish c = Unit
DueAs ends n ready c = EndsWithin ends n c
DueAs ends n suspend c = EndsWithin ends n c
DueAs ends n _ c = ⊥

unfoldable pub IsDue : (ℕ → ℕ → Bool) → ℕ → ℕ × Coroutine → Type 0
IsDue ends n (k, c) = DueAs ends n c.status c

slice_due :
    (ends : ℕ → ℕ → Bool) (n : ℕ) (c d : Coroutine) (last : Bool)
    → ends c.id c.slices ≡ last
    → d.id ≡ c.id
    → d.slices ≡ c.slices + 1
    → EndsWithin ends (suc n) c
    → DueAs ends n (if last then finish else suspend) d
unfolding DueAs EndsWithin
slice_due ends n c d true h same more due = tt
slice_due ends n c d false h same more (j, lo, hi, last) =
    (j, ground arith, omega arith, rw same last)

visit-IsDue :
    (ends : ℕ → ℕ → Bool) (n : ℕ) (st : Status) (k : ℕ) (c : Coroutine) (m : List (ℕ × Coroutine))
    → DueAs ends (suc n) st c
    → All (IsDue ends n) m
    → All (IsDue ends n) (visit ends st (k, c) m)
unfolding DueAs visit IsDue resume run_slice
visit-IsDue ends n finish k c m due rest = rest
visit-IsDue ends n ready k c m due rest =
    (slice_due ends n c (run_slice ends c) _ refl refl refl due, rest)
visit-IsDue ends n suspend k c m due rest =
    (slice_due ends n c (run_slice ends c) _ refl refl refl due, rest)
visit-IsDue ends n uninitialize k c m due rest = absurd due
visit-IsDue ends n running k c m due rest = absurd due

sweep-IsDue :
    (ends : ℕ → ℕ → Bool) (n : ℕ) (m : List (ℕ × Coroutine))
    → All (IsDue ends (suc n)) m
    → All (IsDue ends n) (sweep ends m)
unfolding IsDue sweep
sweep-IsDue ends n [] h = h
sweep-IsDue ends n ((k, c) ∷ m) h =
    visit-IsDue ends n c.status k c (sweep ends m) h.0 (sweep-IsDue ends n m h.1)

-- With no slice left to run, a round erases every coroutine.
visit-done :
    (ends : ℕ → ℕ → Bool) (st : Status) (k : ℕ) (c : Coroutine)
    → DueAs ends 0 st c
    → visit ends st (k, c) [] ≡ []
unfolding DueAs visit EndsWithin
visit-done ends finish k c due = refl
visit-done ends ready k c (j, lo, hi, _) = ground arith
visit-done ends suspend k c (j, lo, hi, _) = ground arith
visit-done ends uninitialize k c due = absurd due
visit-done ends running k c due = absurd due

sweep-done :
    (ends : ℕ → ℕ → Bool) (m : List (ℕ × Coroutine)) → All (IsDue ends 0) m → sweep ends m ≡ []
unfolding sweep IsDue
sweep-done ends [] h = refl
sweep-done ends ((k, c) ∷ m) h = rw (sweep-done ends m h.1) (visit-done ends c.status k c h.0)

abbrev swept : (ℕ → ℕ → Bool) → Schedule → List (ℕ × Coroutine) → Schedule
swept ends s m = record s { coroutines = sweep ends m; current = current_after s.current m }

run-swept :
    (ends : ℕ → ℕ → Bool) (fuel : ℕ) (x : ℕ × Coroutine) (m : List (ℕ × Coroutine)) (s : Schedule)
    → s.cores ≡ 0
    → s.coroutines ≡ x ∷ m
    → run ends (suc fuel) s ≡ run ends fuel (swept ends s (x ∷ m))
unfolding run
run-swept ends fuel x m s idle same = simp (same, idle, run)

run-empty :
    (ends : ℕ → ℕ → Bool) (fuel : ℕ) (s : Schedule)
    → s.coroutines ≡ []
    → run ends (suc fuel) s ≡ some s
unfolding run
run-empty ends fuel s same = simp (same, run)

run_from :
    (ends : ℕ → ℕ → Bool) (n : ℕ) (m : List (ℕ × Coroutine)) (s : Schedule)
    → s.cores ≡ 0
    → s.coroutines ≡ m
    → All (IsDue ends n) m
    → (s' : Schedule) × (run ends (suc (suc n)) s ≡ some s') × (s'.coroutines ≡ [])
run_from ends n [] s idle same h = (s, run-empty ends (suc n) s same, same)
run_from ends zero (x ∷ m) s idle same h =
    let left = swept ends s (x ∷ m) in
    let empty = sweep-done ends (x ∷ m) h in
    (left, run-swept ends 1 x m s idle same ∙ run-empty ends zero left empty, empty)
run_from ends (suc n) (x ∷ m) s idle same h =
    let (s', result, empty) =
      run_from ends n (sweep ends (x ∷ m)) (swept ends s (x ∷ m)) idle refl
        (sweep-IsDue ends n (x ∷ m) h) in
    (s', run-swept ends (suc (suc n)) x m s idle same ∙ result, empty)

-- With no core waiting, and every coroutine finished or able to run and ending within n slices, `run`
-- ends after n + 1 rounds with no coroutine left.
pub run-ends :
    (ends : ℕ → ℕ → Bool) (n : ℕ) (s : Schedule)
    → s.cores ≡ 0
    → All (IsDue ends n) s.coroutines
    → (s' : Schedule) × (run ends (suc (suc n)) s ≡ some s') × (s'.coroutines ≡ [])
run-ends ends n s idle h = run_from ends n s.coroutines s idle refl h
