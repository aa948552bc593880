-- ===== src/Schedule.antt =====
-- src/schedule/DefaultSchedule.cpp and src/base/system/Coroutine.cpp: the cooperative schedule. The
-- switch of stacks (`jump_fcontext`) is assembly: a parameter `ends` says whether the next slice of a
-- coroutine runs to the end of its function, or stops in `yield`. The functions leave the schedule
-- alone. `_coroutines` is an association list in the order of its keys, which are `uint8_t`.
pub mod Init
pub mod Sweep
use gqlite.Prelude.{
  ℕ, zero, suc, ◌+◌, ◌%◌, ◌≡◌, Bool, true, false, ◌||◌, not, Option, none, some, List, [], ◌∷◌, ltb,
  ◌==◌, if◌then◌else◌,
}
use gqlite.Prelude.Eq.{nat_eq}
use gqlite.Prelude.Maps.{contains}

pub data Status : Type 0 where
  uninitialize ready suspend running finish : Status

-- `slices` counts how often the coroutine ran.
pub record Coroutine : Type 0 where
  pub id : ℕ
  pub status : Status
  pub slices : ℕ

-- `cores` is the length of `_cores`.
pub record Schedule : Type 0 where
  pub current : ℕ
  pub max_id : ℕ
  pub coroutines : List (ℕ × Coroutine)
  pub cores : ℕ

-- The loop of `init`, on fuel: the first id from `id` on that no coroutine has.
unfoldable pub first_free : ℕ → ℕ → List (ℕ × Coroutine) → Option ℕ
first_free zero id m = none
first_free (suc fuel) id m =
    let rest = first_free fuel ((id + 1) % 256) m in if contains id m then rest else some id

-- `_coroutines[id] = c`, in the order of the keys.
unfoldable pub put : ℕ → Coroutine → List (ℕ × Coroutine) → List (ℕ × Coroutine)
put k c [] = (k, c) ∷ []
put k c ((j, d) ∷ m) =
    let rest = put k c m in
    if ltb k j then (k, c) ∷ (j, d) ∷ m else if k == j then (k, c) ∷ m else (j, d) ∷ rest

abbrev pub registered : Schedule → Option ℕ → Option Schedule
registered s none = none
registered s (some id) = some (record s {
  max_id = (s.max_id + 1) % 256;
  coroutines = put id (record { id = id; status = ready; slices = 0 }) s.coroutines;
})

-- There are 256 ids, so that a search longer than that finds none.
abbrev pub id_fuel : ℕ
id_fuel = 256

-- `init`, for a new coroutine; `none` where the loop does not end.
unfoldable pub init : Schedule → Option Schedule
unfolding first_free put
init s = registered s (first_free id_fuel ((s.max_id + 1) % 256) s.coroutines)

-- The state after a slice: `yield` suspends, and the entry of the coroutine finishes.
unfoldable pub run_slice : (ℕ → ℕ → Bool) → Coroutine → Coroutine
run_slice ends c = record c {
  status = if ends c.id c.slices then finish else suspend;
  slices = c.slices + 1;
}

-- `GCoroutine::resume`.
unfoldable pub resume : (ℕ → ℕ → Bool) → Status → Coroutine → Coroutine
unfolding run_slice
resume ends ready c = run_slice ends c
resume ends suspend c = run_slice ends c
resume ends _ c = c

-- One round of `run` over the map: a finished coroutine is erased, any other resumed.
unfoldable pub visit :
    (ℕ → ℕ → Bool) → Status → ℕ × Coroutine → List (ℕ × Coroutine) → List (ℕ × Coroutine)
unfolding resume
visit ends finish (k, c) rest = rest
visit ends status (k, c) rest = (k, resume ends status c) ∷ rest

unfoldable pub sweep : (ℕ → ℕ → Bool) → List (ℕ × Coroutine) → List (ℕ × Coroutine)
unfolding visit
sweep ends [] = []
sweep ends ((k, c) ∷ m) = visit ends c.status (k, c) (sweep ends m)

-- `_current` after a round: the last coroutine that was resumed and could run.
unfoldable pub current_after : ℕ → List (ℕ × Coroutine) → ℕ
current_after current [] = current
current_after current ((k, c) ∷ m) =
    current_after (elim c.status [ ready ↦ c.id | suspend ↦ c.id | _ ↦ current ]) m

-- `run`, on fuel: `none` where the fuel ran out.
unfoldable pub run : (ℕ → ℕ → Bool) → ℕ → Schedule → Option Schedule
unfolding sweep current_after
run ends zero s = none
run ends (suc fuel) s = elim s.coroutines [
  | [] ↦ some s
  | x ∷ m ↦
      let rest =
        run ends fuel (record s {
          coroutines = sweep ends (x ∷ m);
          current = current_after s.current (x ∷ m);
        }) in
      if s.cores == 0 then rest else some s
]
