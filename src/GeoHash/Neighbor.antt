-- ===== src/GeoHash/Neighbor.antt =====
-- src/Type/Hash.cpp: a neighbour and the way back.
use gqlite.Prelude.{
  ℕ, zero, suc, ◌+◌, ◌≡◌, refl, ap, Bool, true, false, ◌&&◌, Option, none, some, List, [], ◌∷◌,
  ◌==◌, length, get_elem?, if◌then◌else◌, arith,
}
use gqlite.GeoHash.{
  Direction, north, east, south, west, char_map, index_char, crosses, moved, neighbor, border,
  neighbor_rev, get_neighbor, extend, reverse_onto, reversed, is_odd, even_neighbors, odd_neighbors,
  even_borders, odd_borders,
}

pub opposite : Direction → Direction
opposite north = south
opposite south = north
opposite east = west
opposite west = east

bool_beq : Bool → Bool → Bool
bool_beq true b = b
bool_beq false true = false
bool_beq false false = true

is_some : ℕ → Option ℕ → Bool
is_some c none = false
is_some c (some d) = d == c

-- One column of the tables: the way back leads to the same character, and crosses where the way did.
fits : Bool → Direction → ℕ → ℕ → Bool
unfolding opposite
fits odd d c c' =
    is_some c (moved odd (opposite d) c')
    && bool_beq (crosses odd d c) (crosses odd (opposite d) c')

fits_all : Bool → Direction → List ℕ → List ℕ → Bool
fits_all odd d [] [] = true
fits_all odd d [] (y ∷ ys) = false
fits_all odd d (x ∷ xs) [] = false
fits_all odd d (x ∷ xs) (y ∷ ys) = fits odd d x y && fits_all odd d xs ys

tables_fit : (odd : Bool) (d : Direction) → fits_all odd d (neighbor odd d) char_map ≡ true
unfolding fits_all fits is_some bool_beq opposite moved crosses index_char neighbor border
    even_neighbors odd_neighbors even_borders odd_borders
tables_fit true north = refl
tables_fit true east = refl
tables_fit true south = refl
tables_fit true west = refl
tables_fit false north = refl
tables_fit false east = refl
tables_fit false south = refl
tables_fit false west = refl

fits_all_at :
    (odd : Bool) (d : Direction) (xs ys : List ℕ) (c i c' : ℕ)
    → fits_all odd d xs ys ≡ true
    → index_char c xs ≡ some i
    → get_elem? ys i ≡ some c'
    → fits odd d c c' ≡ true
unfolding fits_all index_char
fits_all_at odd d [] ys c i c' h e f = ground arith
fits_all_at odd d (x ∷ xs) [] c i c' h e f = ground arith
fits_all_at odd d (x ∷ xs) (y ∷ ys) c zero c' h e f = ground arith
fits_all_at odd d (x ∷ xs) (y ∷ ys) c (suc i) c' h e f =
    ground (arith, fits_all_at odd d xs ys c i c')

moved-inv :
    (odd : Bool) (d : Direction) (c c' : ℕ)
    → moved odd d c ≡ some c'
    → (i : ℕ) × (index_char c (neighbor odd d) ≡ some i) × (get_elem? char_map i ≡ some c')
unfolding moved
moved-inv odd d c c' h =
    elim (index_char c (neighbor odd d))
        as (λ r.
          (elim r as (λ _. Option ℕ) [ none ↦ none | some i ↦ get_elem? char_map i ]) ≡ some c'
          → (i : ℕ) × (r ≡ some i) × (get_elem? char_map i ≡ some c')) [
            | none ↦ λ e. ground arith
            | some i ↦ λ e. (i, refl, e)
          ]
      h

fits-inv :
    (odd : Bool) (d : Direction) (c c' : ℕ)
    → fits odd d c c' ≡ true
    → (moved odd (opposite d) c' ≡ some c) × (crosses odd (opposite d) c' ≡ crosses odd d c)
unfolding fits is_some bool_beq
fits-inv odd d c c' h = ground arith

way_back :
    (odd : Bool) (d : Direction) (c c' : ℕ)
    → moved odd d c ≡ some c'
    → (moved odd (opposite d) c' ≡ some c) × (crosses odd (opposite d) c' ≡ crosses odd d c)
way_back odd d c c' h =
    let (i, found, char) = moved-inv odd d c c' h in
    fits-inv odd d c c'
      (fits_all_at odd d (neighbor odd d) char_map c i c' (tables_fit odd d) found char)

extend-inv :
    (a : Option (List ℕ)) (m : Option ℕ) (r : List ℕ)
    → extend a m ≡ some r
    → (c : ℕ) × (b : List ℕ) × (r ≡ c ∷ b) × (m ≡ some c) × (a ≡ some b)
extend-inv none m r h = ground arith
extend-inv (some b) none r h = ground arith
extend-inv (some b) (some c) r h = (c, b, ground arith, refl, refl)

-- A carry can be taken back if the carry of the shorter text can.
carry_back :
    (crossing : Bool) (d : Direction) (base b : List ℕ)
    → (neighbor_rev d base ≡ some b
        → (neighbor_rev (opposite d) b ≡ some base) × (length b ≡ length base))
    → (if crossing then neighbor_rev d base else some base) ≡ some b
    → ((if crossing then neighbor_rev (opposite d) b else some b) ≡ some base)
      × (length b ≡ length base)
carry_back true d base b ih h = ih h
carry_back false d base b ih h = ground arith

neighbor_rev-back :
    (d : Direction) (r r' : List ℕ)
    → neighbor_rev d r ≡ some r'
    → (neighbor_rev (opposite d) r' ≡ some r) × (length r' ≡ length r)
unfolding neighbor_rev
neighbor_rev-back d [] r' h = ground arith
neighbor_rev-back d (c ∷ base) r' h =
    let odd = is_odd (length (c ∷ base)) in
    let (c', b, same, moves, carries) =
      extend-inv (if crosses odd d c then neighbor_rev d base else some base) (moved odd d c) r'
        h in
    let (back, len) = carry_back (crosses odd d c) d base b (neighbor_rev-back d base b) carries in
    let (char, crossing) = way_back odd d c c' moves in
    rw (same, len) (rw (char, crossing, back) refl, refl)

reverse_onto-reverse_onto :
    (xs ys : List ℕ) → reverse_onto (reverse_onto xs ys) [] ≡ reverse_onto ys xs
reverse_onto-reverse_onto [] ys = refl
reverse_onto-reverse_onto (x ∷ xs) ys = reverse_onto-reverse_onto xs (x ∷ ys)

length-reverse_onto : (xs ys : List ℕ) → length (reverse_onto xs ys) ≡ length xs + length ys
length-reverse_onto [] ys = omega arith
length-reverse_onto (x ∷ xs) ys = omega (arith, length-reverse_onto xs (x ∷ ys))

reversed-inv :
    (o : Option (List ℕ)) (other : List ℕ)
    → reversed o ≡ some other
    → (r : List ℕ) × (o ≡ some r) × (other ≡ reverse_onto r [])
reversed-inv none other h = ground arith
reversed-inv (some r) other h = (r, refl, ground arith)

-- A neighbour that is found has as many characters as the hash, and its neighbour in the opposite
-- direction is the hash.
pub get_neighbor-back :
    (d : Direction) (hash other : List ℕ)
    → get_neighbor d hash ≡ some other
    → (get_neighbor (opposite d) other ≡ some hash) × (length other ≡ length hash)
unfolding get_neighbor
get_neighbor-back d hash other h =
    let (r, found, same) = reversed-inv (neighbor_rev d (reverse_onto hash [])) other h in
    let (back, len) = neighbor_rev-back d (reverse_onto hash []) r found in
    rw (same) (
      rw (reverse_onto-reverse_onto r [], back)
          (ap (λ (xs : List ℕ). some xs) (reverse_onto-reverse_onto hash [])),
      omega (arith, len, length-reverse_onto r [], length-reverse_onto hash []),
    )
