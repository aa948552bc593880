-- ===== src/Storage/Backend.antt =====
-- The ordered key-value store (libmdbx) that src/StorageEngine/StorageEngine.cpp calls, as a parameter:
-- its operations on the state of a write transaction, and its documented behaviour. A map handle is a
-- number, 0 the null handle, for which the store throws or returns an error code.
use gqlite.Prelude.{ℕ, ◌≡◌, ◌≢◌, Bool, true, false, ◌&&◌, Option, none, some, List, if◌then◌else◌}
use gqlite.Prelude.Eq.{bytes_beq, bytes_eq}
use gqlite.Prelude.Maps.{contains}

pub data KeyMode : Type 0 where
  usual ordinal : KeyMode

pub record Kv : Type 1 where
  pub State : Type 0
  -- 0 where `open_map` throws, which `GRAPH_EXCEPTION_CATCH` catches
  pub open_map : State → List ℕ → ℕ
  pub create_map : State → List ℕ → KeyMode → ℕ × State
  -- the outer `none` is an exception, the inner one an absent key
  pub get : State → ℕ → List ℕ → Option (Option (List ℕ))
  -- whether the code is 0
  pub put : State → ℕ → List ℕ → List ℕ → Bool × State
  -- `none` is an exception, else whether the key was there
  pub erase : State → ℕ → List ℕ → Option Bool × State
  -- what a cursor visits from `to_first` on
  pub pairs : State → ℕ → List (List ℕ × List ℕ)

abbrev pub is_some {ℓ} : {A : Type ℓ} → Option A → Bool
is_some none = false
is_some (some a) = true

-- Documented behaviour. `content` is what the maps hold, by the name of the map and the key.
pub record IsLawful (K : Kv) (content : K.State → List ℕ → List ℕ → Option (List ℕ)) : Type 0 where
  pub get_lem :
      (t : K.State) (h : ℕ) (n k : List ℕ)
      → K.open_map t n ≡ h
      → h ≢ 0
      → K.get t h k ≡ some (content t n k)
  pub get_null : (t : K.State) (k : List ℕ) → K.get t 0 k ≡ none
  pub put_content :
      (t : K.State) (h : ℕ) (n k v m j : List ℕ)
      → K.open_map t n ≡ h
      → h ≢ 0
      → content (K.put t h k v).1 m j
        ≡ (if (K.put t h k v).0 && (bytes_beq n m && bytes_beq k j) then some v else content t m j)
  pub put_open :
      (t : K.State) (h : ℕ) (k v m : List ℕ) → K.open_map (K.put t h k v).1 m ≡ K.open_map t m
  pub put_null : (t : K.State) (k v : List ℕ) → K.put t 0 k v ≡ (false, t)
  pub erase_lem :
      (t : K.State) (h : ℕ) (n k : List ℕ)
      → K.open_map t n ≡ h
      → h ≢ 0
      → (K.erase t h k).0 ≡ some (is_some (content t n k))
  pub erase_content :
      (t : K.State) (h : ℕ) (n k m j : List ℕ)
      → K.open_map t n ≡ h
      → h ≢ 0
      → content (K.erase t h k).1 m j
        ≡ (if bytes_beq n m && bytes_beq k j then none else content t m j)
  pub erase_open :
      (t : K.State) (h : ℕ) (k m : List ℕ) → K.open_map (K.erase t h k).1 m ≡ K.open_map t m
  pub erase_null : (t : K.State) (k : List ℕ) → K.erase t 0 k ≡ (none, t)
  pub create_content :
      (t : K.State) (n : List ℕ) (mode : KeyMode) (m j : List ℕ)
      → content (K.create_map t n mode).1 m j ≡ content t m j
  pub create_open :
      (t : K.State) (n : List ℕ) (mode : KeyMode) (m : List ℕ)
      → K.open_map (K.create_map t n mode).1 m
        ≡ (if bytes_beq n m then (K.create_map t n mode).0 else K.open_map t m)
  -- a cursor from `to_first` on visits the keys that are there
  pub pairs_lem :
      (t : K.State) (h : ℕ) (n k : List ℕ)
      → K.open_map t n ≡ h
      → h ≢ 0
      → contains k (K.pairs t h) ≡ is_some (content t n k)
