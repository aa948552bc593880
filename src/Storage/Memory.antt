-- ===== src/Storage/Memory.antt =====
-- A key-value store in memory with the behaviour that src/StorageEngine/StorageEngine.cpp relies on.
-- The handle of a map is its place in the order of creation.
use gqlite.Prelude.{
  ℕ, suc, ◌≤◌, ◌≡◌, ◌≢◌, refl, ap, ◌∙◌, Bool, true, false, ◌&&◌, Option, none, some, List, [], ◌∷◌,
  ◌==◌, if◌then◌else◌, arith, length,
}
use gqlite.Prelude.Eq.{bytes_beq, bytes_beq_iff, bytes_eq}
use gqlite.Prelude.Maps.{lookup, insert, erase, contains, lookup-insert, lookup-erase}
use gqlite.Storage.Backend.{Kv, KeyMode, IsLawful, is_some}

pub record Disk : Type 0 where
  pub maps : List (List ℕ)
  pub cells : List (List ℕ × List (List ℕ × List ℕ))

unfoldable pub index_of : List ℕ → List (List ℕ) → ℕ
index_of n [] = 0
index_of n (m ∷ ms) = let i = index_of n ms in if bytes_beq m n then suc (length ms) else i

unfoldable pub name_at : ℕ → List (List ℕ) → Option (List ℕ)
name_at h [] = none
name_at h (m ∷ ms) = let o = name_at h ms in if h == suc (length ms) then some m else o

index_le : (n : List ℕ) (ms : List (List ℕ)) → index_of n ms ≤ length ms
unfolding index_of
index_le n [] = omega arith
index_le n (m ∷ ms) = ground (arith, index_le n ms)

name_at-index_of :
    (n : List ℕ) (ms : List (List ℕ)) → index_of n ms ≢ 0 → name_at (index_of n ms) ms ≡ some n
unfolding index_of name_at
name_at-index_of n [] h = absurd (h refl)
name_at-index_of n (m ∷ ms) h =
    ground (arith, name_at-index_of n ms, index_le n ms, bytes_beq_iff m n)

name_at_null : (ms : List (List ℕ)) → name_at 0 ms ≡ none
unfolding name_at
name_at_null [] = refl
name_at_null (m ∷ ms) = ground (arith, name_at_null ms)

unfoldable pub cells_of : Disk → List ℕ → List (List ℕ × List ℕ)
cells_of t n = elim (lookup n t.cells) [ none ↦ [] | some c ↦ c ]

unfoldable pub held : Disk → List ℕ → List ℕ → Option (List ℕ)
unfolding cells_of
held t n k = lookup k (cells_of t n)

unfoldable pub put_cell : Disk → ℕ → List ℕ → List ℕ → Bool × Disk
unfolding name_at cells_of
put_cell t h k v = elim (name_at h t.maps) [
  | none ↦ (false, t)
  | some n ↦ (true, record t { cells = insert n (insert k v (cells_of t n)) t.cells })
]

unfoldable pub erase_cell : Disk → ℕ → List ℕ → Option Bool × Disk
unfolding name_at cells_of
erase_cell t h k = elim (name_at h t.maps) [
  | none ↦ (none, t)
  | some n ↦ (
    some (is_some (lookup k (cells_of t n))),
    record t { cells = insert n (erase k (cells_of t n)) t.cells },
  )
]

unfoldable pub create_cells : Disk → List ℕ → KeyMode → ℕ × Disk
unfolding index_of
create_cells t n mode =
    if index_of n t.maps == 0
    then (suc (length t.maps), record t { maps = n ∷ t.maps })
    else (index_of n t.maps, t)

unfoldable pub get_cell : Disk → ℕ → List ℕ → Option (Option (List ℕ))
unfolding name_at held
get_cell t h k = elim (name_at h t.maps) [ none ↦ none | some n ↦ some (held t n k) ]

unfoldable pub all_cells : Disk → ℕ → List (List ℕ × List ℕ)
unfolding name_at cells_of
all_cells t h = elim (name_at h t.maps) [ none ↦ [] | some n ↦ cells_of t n ]

abbrev pub memory : Kv
memory = record {
  State = Disk;
  open_map = λ t n. index_of n t.maps;
  create_map = create_cells;
  get = get_cell;
  put = put_cell;
  erase = erase_cell;
  pairs = all_cells;
}

named : (t : Disk) (h : ℕ) (n : List ℕ) → index_of n t.maps ≡ h → h ≢ 0 → name_at h t.maps ≡ some n
named t h n e ne = rw⁻¹ e (name_at-index_of n t.maps (λ q. ne (cc (q, e))))

get_named :
    (t : Disk) (h : ℕ) (n k : List ℕ)
    → name_at h t.maps ≡ some n
    → get_cell t h k ≡ some (held t n k)
unfolding get_cell
get_named t h n k e = ground (arith, e)

put_named :
    (t : Disk) (h : ℕ) (n k v : List ℕ)
    → name_at h t.maps ≡ some n
    → put_cell t h k v ≡ (true, record t { cells = insert n (insert k v (cells_of t n)) t.cells })
unfolding put_cell
put_named t h n k v e = rw (e, put_cell) refl

erase_named :
    (t : Disk) (h : ℕ) (n k : List ℕ)
    → name_at h t.maps ≡ some n
    → erase_cell t h k ≡ (
      some (is_some (held t n k)),
      record t { cells = insert n (erase k (cells_of t n)) t.cells },
    )
unfolding erase_cell held
erase_named t h n k e = rw (e, erase_cell) refl

-- The contents after the cells of one map were replaced.
held-insert :
    (t : Disk) (n m j : List ℕ) (c : List (List ℕ × List ℕ))
    → held (record t { cells = insert n c t.cells }) m j
      ≡ (if bytes_beq n m then lookup j c else held t m j)
unfolding held cells_of
held-insert t n m j c = ground (arith, lookup-insert n m c t.cells)

put_held :
    (t : Disk) (h : ℕ) (n k v m j : List ℕ)
    → name_at h t.maps ≡ some n
    → held (put_cell t h k v).1 m j
      ≡ (if (put_cell t h k v).0 && (bytes_beq n m && bytes_beq k j) then some v else held t m j)
unfolding held
put_held t h n k v m j e = rw (put_named t h n k v e) (
    held-insert t n m j (insert k v (cells_of t n))
    ∙ ground (arith, lookup-insert k j v (cells_of t n), bytes_beq_iff n m))

erase_held :
    (t : Disk) (h : ℕ) (n k m j : List ℕ)
    → name_at h t.maps ≡ some n
    → held (erase_cell t h k).1 m j ≡ (if bytes_beq n m && bytes_beq k j then none else held t m j)
unfolding held
erase_held t h n k m j e = rw (erase_named t h n k e) (
    held-insert t n m j (erase k (cells_of t n))
    ∙ ground (arith, lookup-erase k j (cells_of t n), bytes_beq_iff n m))

put_null_cell : (t : Disk) (k v : List ℕ) → put_cell t 0 k v ≡ (false, t)
unfolding put_cell
put_null_cell t k v = rw (name_at_null t.maps, put_cell) refl

erase_null_cell : (t : Disk) (k : List ℕ) → erase_cell t 0 k ≡ (none, t)
unfolding erase_cell
erase_null_cell t k = rw (name_at_null t.maps, erase_cell) refl

get_null_cell : (t : Disk) (k : List ℕ) → get_cell t 0 k ≡ none
unfolding get_cell
get_null_cell t k = ground (arith, name_at_null t.maps)

put_maps : (t : Disk) (h : ℕ) (k v : List ℕ) → (put_cell t h k v).1.maps ≡ t.maps
unfolding put_cell
put_maps t h k v = ground arith

erase_maps : (t : Disk) (h : ℕ) (k : List ℕ) → (erase_cell t h k).1.maps ≡ t.maps
unfolding erase_cell
erase_maps t h k = ground arith

create_held :
    (t : Disk) (n : List ℕ) (mode : KeyMode) (m j : List ℕ)
    → held (create_cells t n mode).1 m j ≡ held t m j
unfolding create_cells held cells_of
create_held t n mode m j = ground arith

create_maps :
    (t : Disk) (n : List ℕ) (mode : KeyMode) (m : List ℕ)
    → index_of m (create_cells t n mode).1.maps
      ≡ (if bytes_beq n m then (create_cells t n mode).0 else index_of m t.maps)
unfolding create_cells index_of
create_maps t n mode m = ground (arith, bytes_beq_iff n m)

contains-is_some : (k : List ℕ) (m : List (List ℕ × List ℕ)) → contains k m ≡ is_some (lookup k m)
unfolding contains
contains-is_some k m = ground arith

all_cells_named :
    (t : Disk) (h : ℕ) (n k : List ℕ)
    → name_at h t.maps ≡ some n
    → contains k (all_cells t h) ≡ is_some (held t n k)
unfolding all_cells held
all_cells_named t h n k e = rw (e, all_cells) (contains-is_some k (cells_of t n))

pub memory-IsLawful : IsLawful memory held
memory-IsLawful = record {
  get_lem = λ t h n k e ne. get_named t h n k (named t h n e ne);
  get_null = get_null_cell;
  put_content = λ t h n k v m j e ne. put_held t h n k v m j (named t h n e ne);
  put_open = λ t h k v m. ap (index_of m) (put_maps t h k v);
  put_null = put_null_cell;
  erase_lem =
      λ t h n k e ne. ap (λ (r : Option Bool × Disk). r.0) (erase_named t h n k (named t h n e ne));
  erase_content = λ t h n k m j e ne. erase_held t h n k m j (named t h n e ne);
  erase_open = λ t h k m. ap (index_of m) (erase_maps t h k);
  erase_null = erase_null_cell;
  create_content = create_held;
  create_open = create_maps;
  pairs_lem = λ t h n k e ne. all_cells_named t h n k (named t h n e ne);
}
