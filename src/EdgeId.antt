-- ===== src/EdgeId.antt =====
-- src/gutil.cpp and include/gutil.h: the edge id, its textual key in the store, and its parts.
-- A key is a byte string or a `uint64_t`; bytes are numbers below 256. `none` stands for a failed
-- assertion or an access out of a buffer's bounds, where the source's behaviour is undefined.
pub mod RoundTrip
pub mod Order
use gqlite.Prelude.{
  ℕ, ◌+◌, ◌-◌, ◌*◌, ◌/◌, ◌%◌, ◌≡◌, Bool, true, false, not, ◌&&◌, ◌||◌, Option, none, some, List, [],
  ◌∷◌, ◌++◌, leb, ltb, ◌==◌, if◌then◌else◌, length, take, drop,
}
use gqlite.Prelude.Eq.{bytes_beq}
use gqlite.Prelude.Options.{◌>>=◌}
use gqlite.Word.{le_bytes, read_u64}

-- `Variant<std::string, uint64_t>`, the type of a vertex key.
pub data Key : Type 0 where
  str : List ℕ → Key
  num : ℕ → Key

-- The bit fields of `edge_id`, and the bytes that `_value` points to.
pub record EdgeId : Type 0 where
  pub direction : Bool
  pub from_type : ℕ
  pub to_type : ℕ
  pub from_len : ℕ
  pub reserved : ℕ
  pub len : ℕ
  pub value : List ℕ

-- `!key.index()`: 1 for a string, 0 for an integer.
unfoldable pub key_type : Key → ℕ
key_type (str s) = 1
key_type (num n) = 0

-- The bytes that `memcpy` copies out of a key.
unfoldable pub key_bytes : Key → List ℕ
unfolding le_bytes
key_bytes (str s) = s
key_bytes (num n) = le_bytes 8 n

-- `_from_len` has 4 bits and `_len` has 8. The buffer has `_len` bytes, and the second copy writes
-- all bytes of `to` behind the `_from_len` bytes of `from`: more than `_len` overruns it.
unfoldable pub make_edge_id : Bool → Key → Key → Option EdgeId
unfolding key_type key_bytes
make_edge_id direction from to =
    let from_len = length (key_bytes from) % 16 in
    let to_len = length (key_bytes to) in
    let len = (to_len + from_len) % 256 in
    if leb (from_len + to_len) len
    then some (record {
      direction = direction;
      from_type = key_type from;
      to_type = key_type to;
      from_len = from_len;
      reserved = 0;
      len = len;
      value = take from_len (key_bytes from) ++ key_bytes to;
    })
    else none

abbrev pub bit : Bool → ℕ
bit true = 1
bit false = 0

-- The first byte of the structure: the fields from the lowest bit on, in their order.
unfoldable pub info_byte : EdgeId → ℕ
info_byte id =
    bit id.direction + 2 * id.from_type + 4 * id.to_type + 8 * id.from_len + 128 * id.reserved

unfoldable pub to_string : EdgeId → List ℕ
unfolding info_byte
to_string id = info_byte id ∷ id.len ∷ take id.len id.value

unfoldable pub to_edge_id : List ℕ → Option EdgeId
to_edge_id (info ∷ len ∷ rest) =
    if len == length rest
    then some (record {
      direction = info % 2 == 1;
      from_type = info / 2 % 2;
      to_type = info / 4 % 2;
      from_len = info / 8 % 16;
      reserved = info / 128 % 2;
      len = len;
      value = rest;
    })
    else none
to_edge_id _ = none

-- `get_value`: an integer is read as eight bytes whatever `len` says, a string as `len` bytes.
unfoldable pub get_value : ℕ → List ℕ → ℕ → Option Key
unfolding read_u64
get_value type ptr len =
    if type == 0
    then (read_u64 ptr >>= λ n. some (num n))
    else if leb len (length ptr)
    then some (str (take len ptr))
    else none

unfoldable pub get_from_to : EdgeId → Option (Key × Key)
get_from_to eid = do
  from ← get_value eid.from_type eid.value eid.from_len
  to ← get_value eid.to_type (drop eid.from_len eid.value) ((eid.len + 256 - eid.from_len) % 256)
  some (from, to)

-- The overload on the stored key.
unfoldable pub get_from_to_string : List ℕ → Option (Key × Key)
get_from_to_string eid = do id ← to_edge_id eid; get_from_to id

unfoldable pub is_direction : List ℕ → Option Bool
is_direction eid = do id ← to_edge_id eid; some id.direction

unfoldable pub is_same_edge_id : EdgeId → EdgeId → Bool
is_same_edge_id left right =
    let differs =
      not (bit left.direction == bit right.direction)
      || not (left.len == right.len)
      || not (left.from_len == right.from_len)
      || not (left.from_type == right.from_type)
      || not (left.to_type == right.to_type) in
    if differs then false else bytes_beq (take right.len left.value) (take right.len right.value)

-- `operator<`, the order of `std::map<gql::edge_id, …>`.
unfoldable pub less : EdgeId → EdgeId → Bool
less left right = ltb left.len right.len || ltb left.from_len right.from_len
