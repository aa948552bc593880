-- ===== src/GeoHash.antt =====
-- src/Type/Hash.cpp: geohashes. Texts are lists of character codes. `double` is a parameter with the
-- tests and the midpoint that `encode` uses. `none` stands for a read in front of the text.
pub mod Neighbor
pub mod Encode
use gqlite.Prelude.{
  ℕ, zero, suc, ◌+◌, ◌-◌, ◌*◌, ◌%◌, ◌≡◌, Bool, true, false, not, ◌&&◌, Option, none, some, List, [],
  ◌∷◌, ◌++◌, ◌==◌, if◌then◌else◌, length, get_elem?, set, take, replicate,
}

-- "0123456789bcdefghjkmnpqrstuvwxyz".
abbrev pub char_map : List ℕ
char_map =
    48 ∷ 49 ∷ 50 ∷ 51 ∷ 52 ∷ 53 ∷ 54 ∷ 55 ∷ 56 ∷ 57 ∷ 98 ∷ 99 ∷ 100 ∷ 101 ∷ 102 ∷ 103 ∷ 104 ∷ 106
    ∷ 107 ∷ 109 ∷ 110 ∷ 112 ∷ 113 ∷ 114 ∷ 115 ∷ 116 ∷ 117 ∷ 118 ∷ 119 ∷ 120 ∷ 121 ∷ 122 ∷ []

pub data Direction : Type 0 where
  north east south west : Direction

-- The rows of `evenNeighbors`, `oddNeighbors`, `evenBorders` and `oddBorders`.
unfoldable pub even_neighbors : Direction → List ℕ
even_neighbors north =
    112 ∷ 48 ∷ 114 ∷ 50 ∷ 49 ∷ 52 ∷ 51 ∷ 54 ∷ 120 ∷ 56 ∷ 122 ∷ 98 ∷ 57 ∷ 100 ∷ 99 ∷ 102 ∷ 53 ∷ 104
    ∷ 55 ∷ 107 ∷ 106 ∷ 110 ∷ 109 ∷ 113 ∷ 101 ∷ 115 ∷ 103 ∷ 117 ∷ 116 ∷ 119 ∷ 118 ∷ 121 ∷ []
even_neighbors east =
    98 ∷ 99 ∷ 48 ∷ 49 ∷ 102 ∷ 103 ∷ 52 ∷ 53 ∷ 50 ∷ 51 ∷ 56 ∷ 57 ∷ 54 ∷ 55 ∷ 100 ∷ 101 ∷ 117 ∷ 118
    ∷ 104 ∷ 106 ∷ 121 ∷ 122 ∷ 110 ∷ 112 ∷ 107 ∷ 109 ∷ 115 ∷ 116 ∷ 113 ∷ 114 ∷ 119 ∷ 120 ∷ []
even_neighbors south =
    49 ∷ 52 ∷ 51 ∷ 54 ∷ 53 ∷ 104 ∷ 55 ∷ 107 ∷ 57 ∷ 100 ∷ 99 ∷ 102 ∷ 101 ∷ 115 ∷ 103 ∷ 117 ∷ 106
    ∷ 110 ∷ 109 ∷ 113 ∷ 112 ∷ 48 ∷ 114 ∷ 50 ∷ 116 ∷ 119 ∷ 118 ∷ 121 ∷ 120 ∷ 56 ∷ 122 ∷ 98 ∷ []
even_neighbors west =
    50 ∷ 51 ∷ 56 ∷ 57 ∷ 54 ∷ 55 ∷ 100 ∷ 101 ∷ 98 ∷ 99 ∷ 48 ∷ 49 ∷ 102 ∷ 103 ∷ 52 ∷ 53 ∷ 107 ∷ 109
    ∷ 115 ∷ 116 ∷ 113 ∷ 114 ∷ 119 ∷ 120 ∷ 117 ∷ 118 ∷ 104 ∷ 106 ∷ 121 ∷ 122 ∷ 110 ∷ 112 ∷ []

unfoldable pub odd_neighbors : Direction → List ℕ
odd_neighbors north =
    98 ∷ 99 ∷ 48 ∷ 49 ∷ 102 ∷ 103 ∷ 52 ∷ 53 ∷ 50 ∷ 51 ∷ 56 ∷ 57 ∷ 54 ∷ 55 ∷ 100 ∷ 101 ∷ 117 ∷ 118
    ∷ 104 ∷ 106 ∷ 121 ∷ 122 ∷ 110 ∷ 112 ∷ 107 ∷ 109 ∷ 115 ∷ 116 ∷ 113 ∷ 114 ∷ 119 ∷ 120 ∷ []
odd_neighbors east =
    112 ∷ 48 ∷ 114 ∷ 50 ∷ 49 ∷ 52 ∷ 51 ∷ 54 ∷ 120 ∷ 56 ∷ 122 ∷ 98 ∷ 57 ∷ 100 ∷ 99 ∷ 102 ∷ 53 ∷ 104
    ∷ 55 ∷ 107 ∷ 106 ∷ 110 ∷ 109 ∷ 113 ∷ 101 ∷ 115 ∷ 103 ∷ 117 ∷ 116 ∷ 119 ∷ 118 ∷ 121 ∷ []
odd_neighbors south =
    50 ∷ 51 ∷ 56 ∷ 57 ∷ 54 ∷ 55 ∷ 100 ∷ 101 ∷ 98 ∷ 99 ∷ 48 ∷ 49 ∷ 102 ∷ 103 ∷ 52 ∷ 53 ∷ 107 ∷ 109
    ∷ 115 ∷ 116 ∷ 113 ∷ 114 ∷ 119 ∷ 120 ∷ 117 ∷ 118 ∷ 104 ∷ 106 ∷ 121 ∷ 122 ∷ 110 ∷ 112 ∷ []
odd_neighbors west =
    49 ∷ 52 ∷ 51 ∷ 54 ∷ 53 ∷ 104 ∷ 55 ∷ 107 ∷ 57 ∷ 100 ∷ 99 ∷ 102 ∷ 101 ∷ 115 ∷ 103 ∷ 117 ∷ 106
    ∷ 110 ∷ 109 ∷ 113 ∷ 112 ∷ 48 ∷ 114 ∷ 50 ∷ 116 ∷ 119 ∷ 118 ∷ 121 ∷ 120 ∷ 56 ∷ 122 ∷ 98 ∷ []

unfoldable pub even_borders : Direction → List ℕ
even_borders north = 112 ∷ 114 ∷ 120 ∷ 122 ∷ []
even_borders east = 98 ∷ 99 ∷ 102 ∷ 103 ∷ 117 ∷ 118 ∷ 121 ∷ 122 ∷ []
even_borders south = 48 ∷ 50 ∷ 56 ∷ 98 ∷ []
even_borders west = 48 ∷ 49 ∷ 52 ∷ 53 ∷ 104 ∷ 106 ∷ 110 ∷ 112 ∷ []

unfoldable pub odd_borders : Direction → List ℕ
odd_borders north = 98 ∷ 99 ∷ 102 ∷ 103 ∷ 117 ∷ 118 ∷ 121 ∷ 122 ∷ []
odd_borders east = 112 ∷ 114 ∷ 120 ∷ 122 ∷ []
odd_borders south = 48 ∷ 49 ∷ 52 ∷ 53 ∷ 104 ∷ 106 ∷ 110 ∷ 112 ∷ []
odd_borders west = 48 ∷ 50 ∷ 56 ∷ 98 ∷ []

-- `indexChar`: the first index of a character, or `none` for -1.
unfoldable pub index_char : ℕ → List ℕ → Option ℕ
index_char c [] = none
index_char c (d ∷ ds) =
    let rest = index_char c ds in
    if c == d then some 0 else (elim rest [ none ↦ none | some i ↦ some (suc i) ])

abbrev pub is_odd : ℕ → Bool
is_odd n = n % 2 == 1

unfoldable pub border : Bool → Direction → List ℕ
unfolding even_borders odd_borders
border odd d = if odd then odd_borders d else even_borders d

unfoldable pub neighbor : Bool → Direction → List ℕ
unfolding even_neighbors odd_neighbors
neighbor odd d = if odd then odd_neighbors d else even_neighbors d

-- Is the last character on the border, so that the carry goes to the characters before it?
unfoldable pub crosses : Bool → Direction → ℕ → Bool
unfolding index_char border
crosses odd d c = elim (index_char c (border odd d)) [ none ↦ false | some i ↦ true ]

-- The new last character: `charMap` at the index in the table, `none` where the index is -1.
unfoldable pub moved : Bool → Direction → ℕ → Option ℕ
unfolding index_char neighbor
moved odd d c = elim (index_char c (neighbor odd d)) [ none ↦ none | some i ↦ get_elem? char_map i ]

abbrev pub extend : Option (List ℕ) → Option ℕ → Option (List ℕ)
extend none c = none
extend (some base) none = none
extend (some base) (some c) = some (c ∷ base)

-- `getNeighbor` on the text from its end: the last character comes first.
unfoldable pub neighbor_rev : Direction → List ℕ → Option (List ℕ)
unfolding crosses moved
neighbor_rev d [] = none
neighbor_rev d (c ∷ base) =
    let odd = is_odd (length (c ∷ base)) in
    let carried = neighbor_rev d base in
    extend (if crosses odd d c then carried else some base) (moved odd d c)

abbrev pub reverse_onto : List ℕ → List ℕ → List ℕ
reverse_onto [] acc = acc
reverse_onto (c ∷ cs) acc = reverse_onto cs (c ∷ acc)

abbrev pub reversed : Option (List ℕ) → Option (List ℕ)
reversed none = none
reversed (some r) = some (reverse_onto r [])

unfoldable pub get_neighbor : Direction → List ℕ → Option (List ℕ)
unfolding neighbor_rev
get_neighbor d hash = reversed (neighbor_rev d (reverse_onto hash []))

-- The arithmetic of `double` that `encode` uses.
pub record Coordinates (D : Type 0) : Type 0 where
  pub midpoint : D → D → D
  pub above : D → D → Bool
  pub in_range : D → D → Bool
  pub min_latitude : D
  pub max_latitude : D
  pub min_longitude : D
  pub max_longitude : D

abbrev pub hash_precision : ℕ
hash_precision = 6

-- `Interval`.
pub record Interval (D : Type 0) : Type 0 where
  pub low : D
  pub high : D

pub record Encoder (D : Type 0) : Type 0 where
  pub lat : Interval D
  pub long : Interval D
  pub is_even : Bool
  pub hash_char : ℕ
  pub hash : List ℕ

-- `charMap[c]`, an array of 33 characters that ends in a NUL.
abbrev pub char_code : ℕ → ℕ
char_code c = elim (get_elem? char_map c) [ none ↦ 0 | some x ↦ x ]

module _ {D : Type 0} (co : Coordinates D) where
  unfoldable pub halve : Interval D → D → Interval D
  halve i coord =
      let mid = co.midpoint i.high i.low in
      if co.above coord mid then record i { low = mid } else record i { high = mid }

  -- One round of the loop, for the index `idx`.
  unfoldable pub encode_step : D → D → ℕ → Encoder D → Encoder D
  unfolding halve
  encode_step d_long d_lat idx e =
      let i = if e.is_even then e.long else e.lat in
      let coord = if e.is_even then d_long else d_lat in
      let bit = if co.above coord (co.midpoint i.high i.low) then 1 else 0 in
      let halved = halve i coord in
      let char = e.hash_char * 2 + bit in
      record {
        lat = if e.is_even then e.lat else halved;
        long = if e.is_even then halved else e.long;
        is_even = not e.is_even;
        hash_char = if idx % 5 == 0 then 0 else char;
        hash = if idx % 5 == 0 then e.hash ++ char_code char ∷ [] else e.hash;
      }

  -- The loop from the index `idx`, for `n` rounds.
  unfoldable pub encode_from : D → D → ℕ → ℕ → Encoder D → Encoder D
  unfolding encode_step
  encode_from d_long d_lat zero idx e = e
  encode_from d_long d_lat (suc n) idx e =
      encode_from d_long d_lat n (idx + 1) (encode_step d_long d_lat idx e)

  unfoldable pub encode : D → D → List ℕ
  unfolding encode_from
  encode d_long d_lat =
      if co.in_range d_long d_lat
      then (encode_from d_long d_lat (hash_precision - 1) 1 (record {
        lat = record { low = co.min_latitude; high = co.max_latitude };
        long = record { low = co.min_longitude; high = co.max_longitude };
        is_even = true;
        hash_char = 0;
        hash = [];
      })).hash
      else []
