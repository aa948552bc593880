-- ===== src/EdgeId/RoundTrip.antt =====
-- src/gutil.cpp: edge keys, written and read.
use gqlite.Prelude.{
  ℕ, ◌+◌, ◌/◌, ◌%◌, ◌^◌, ◌≤◌, ◌<◌, ◌≡◌, ◌↔◌, refl, ap, ◌∙◌, Bool, true, false, Option, some, List,
  [], ◌++◌, append-nil, arith, ◌==◌, length, take, length-append, take-length-append,
  drop-length-append, take-length,
}
use gqlite.Prelude.Eq.{bytes_beq_iff}
use gqlite.Prelude.Options.{◌>>=◌}
use gqlite.Word.{read_u64-le_bytes}
use gqlite.EdgeId.{
  Key, str, num, EdgeId, key_type, key_bytes, make_edge_id, bit, info_byte, to_string, to_edge_id,
  get_value, get_from_to, get_from_to_string, is_direction, is_same_edge_id,
}

-- The ranges of the bit fields, and a buffer of `_len` bytes.
pub record IsWellFormed (id : EdgeId) : Type 0 where
  pub from_bit : id.from_type < 2
  pub to_bit : id.to_type < 2
  pub from_fits : id.from_len < 16
  pub reserved_bit : id.reserved < 2
  pub sized : length id.value ≡ id.len
  pub nested : id.from_len ≤ id.len
  pub len_fits : id.len < 256

-- Keys that an edge id can hold: a source of at most 15 bytes, and 255 bytes in all.
pub record Fits (from to : Key) : Type 0 where
  pub short : length (key_bytes from) ≤ 15
  pub total : length (key_bytes from) + length (key_bytes to) ≤ 255

abbrev pub IsU64Key : Key → Type 0
IsU64Key (str s) = Unit
IsU64Key (num n) = n < 2 ^ 64

-- What `make_edge_id` builds of keys that fit.
abbrev pub whole_id : Bool → Key → Key → EdgeId
whole_id direction from to = record {
  direction = direction;
  from_type = key_type from;
  to_type = key_type to;
  from_len = length (key_bytes from);
  reserved = 0;
  len = length (key_bytes from) + length (key_bytes to);
  value = key_bytes from ++ key_bytes to;
}

key_type_bit : (k : Key) → key_type k < 2
unfolding key_type
key_type_bit (str s) = omega arith
key_type_bit (num n) = omega arith

take-all : (xs : List ℕ) (n : ℕ) → n ≡ length xs → take n xs ≡ xs
take-all xs n e = rw e (take-length xs)

make-whole :
    (d : Bool) (from to : Key) → Fits from to → make_edge_id d from to ≡ some (whole_id d from to)
unfolding make_edge_id
make-whole d from to h =
    ground (arith, take-all (key_bytes from) (length (key_bytes from) % 16) (omega arith))

whole_id-IsWellFormed :
    (d : Bool) (from to : Key) → Fits from to → IsWellFormed (whole_id d from to)
whole_id-IsWellFormed d from to h = record {
  from_bit = key_type_bit from;
  to_bit = key_type_bit to;
  from_fits = omega arith;
  reserved_bit = omega arith;
  sized = length-append (key_bytes from) (key_bytes to);
  nested = omega arith;
  len_fits = omega arith;
}

bit-lt : (d : Bool) → bit d < 2
bit-lt true = omega arith
bit-lt false = omega arith

bit-test : (d : Bool) → (bit d == 1) ≡ d
bit-test true = refl
bit-test false = refl

-- The fields of the first byte are read back from it.
info_fields :
    (id : EdgeId)
    → IsWellFormed id
    → (info_byte id % 2 ≡ bit id.direction)
      × (info_byte id / 2 % 2 ≡ id.from_type)
      × (info_byte id / 4 % 2 ≡ id.to_type)
      × (info_byte id / 8 % 16 ≡ id.from_len)
      × (info_byte id / 128 % 2 ≡ id.reserved)
unfolding info_byte
info_fields id w = omega (arith, bit-lt id.direction)

-- A well-formed edge id is read back from its stored key.
pub to_edge_id-to_string : (id : EdgeId) → IsWellFormed id → to_edge_id (to_string id) ≡ some id
unfolding to_edge_id to_string
to_edge_id-to_string id w =
    ground (arith, info_fields id w, take-all id.value id.len, bit-test id.direction)

get_value-key :
    (k : Key) (rest : List ℕ)
    → IsU64Key k
    → get_value (key_type k) (key_bytes k ++ rest) (length (key_bytes k)) ≡ some k
unfolding get_value key_type key_bytes
get_value-key (str s) rest h = ground (arith, length-append s rest, take-length-append s rest)
get_value-key (num n) rest h =
    ap (λ (o : Option ℕ). o >>= λ m. some (num m)) (read_u64-le_bytes n rest h)

-- The source and the target of an edge id made of keys that fit are read back from it.
get_from_to-whole :
    (d : Bool) (from to : Key)
    → Fits from to
    → IsU64Key from
    → IsU64Key to
    → get_from_to (whole_id d from to) ≡ some (from, to)
unfolding get_from_to
get_from_to-whole d from to h hf ht = ground (
  arith,
  get_value-key from (key_bytes to) hf,
  drop-length-append (key_bytes from) (key_bytes to),
  get_value-key to [] ht,
  append-nil (key_bytes to),
)

-- For vertex keys that fit an edge id, `make_edge_id` succeeds, the id is read back from its stored
-- key, and so are both vertex keys and the direction.
pub edge_key_round_trip :
    (d : Bool) (from to : Key)
    → Fits from to
    → IsU64Key from
    → IsU64Key to
    → (id : EdgeId) × (make_edge_id d from to ≡ some id)
      × (to_edge_id (to_string id) ≡ some id)
      × (get_from_to_string (to_string id) ≡ some (from, to))
      × (is_direction (to_string id) ≡ some d)
unfolding get_from_to_string is_direction
edge_key_round_trip d from to h hf ht =
    let back = to_edge_id-to_string (whole_id d from to) (whole_id-IsWellFormed d from to h) in
    (
      whole_id d from to,
      make-whole d from to h,
      back,
      ap (λ (o : Option EdgeId). o >>= get_from_to) back ∙ get_from_to-whole d from to h hf ht,
      ap (λ (o : Option EdgeId). o >>= λ id. some id.direction) back,
    )

module _ (a b : EdgeId) (wa : IsWellFormed a) (wb : IsWellFormed b)
    (r : a.reserved ≡ b.reserved) where
  same→eq : is_same_edge_id a b ≡ true → a ≡ b
  unfolding is_same_edge_id
  same→eq h = ground (
    arith,
    bytes_beq_iff (take b.len a.value) (take b.len b.value),
    take-all a.value b.len,
    take-all b.value b.len,
    bit-test a.direction,
    bit-test b.direction,
  )

  eq→same : a ≡ b → is_same_edge_id a b ≡ true
  unfolding is_same_edge_id
  eq→same e = ground (arith, bytes_beq_iff (take b.len a.value) (take b.len b.value))

  -- Two well-formed ids compare as the same exactly when they are equal, the spare bit being alike.
  pub is_same_edge_id_lem : (is_same_edge_id a b ≡ true) ↔ (a ≡ b)
  is_same_edge_id_lem = (same→eq, eq→same)
