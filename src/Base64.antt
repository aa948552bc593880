-- ===== src/Base64.antt =====
-- src/Type/Binary.cpp and include/Type/Binary.h: base64 text of binary attributes. Bytes and characters
-- are numbers; a C string is the list of its characters in front of the NUL. The masks and shifts of
-- the source are written as divisions and remainders by powers of two.
pub mod RoundTrip
pub mod Compare
use gqlite.Prelude.{
  ℕ, zero, suc, ◌+◌, ◌*◌, ◌/◌, ◌%◌, ◌≡◌, refl, Option, none, some, List, [], ◌∷◌, ◌++◌, ◌==◌,
  if◌then◌else◌, length, take, replicate,
}

-- `base64_chars`, without its NUL.
abbrev pub base64_chars : List ℕ
base64_chars =
    65 ∷ 66 ∷ 67 ∷ 68 ∷ 69 ∷ 70 ∷ 71 ∷ 72 ∷ 73 ∷ 74 ∷ 75 ∷ 76 ∷ 77 ∷ 78 ∷ 79 ∷ 80 ∷ 81 ∷ 82 ∷ 83
    ∷ 84 ∷ 85 ∷ 86 ∷ 87 ∷ 88 ∷ 89 ∷ 90 ∷ 97 ∷ 98 ∷ 99 ∷ 100 ∷ 101 ∷ 102 ∷ 103 ∷ 104 ∷ 105 ∷ 106
    ∷ 107 ∷ 108 ∷ 109 ∷ 110 ∷ 111 ∷ 112 ∷ 113 ∷ 114 ∷ 115 ∷ 116 ∷ 117 ∷ 118 ∷ 119 ∷ 120 ∷ 121 ∷ 122
    ∷ 48 ∷ 49 ∷ 50 ∷ 51 ∷ 52 ∷ 53 ∷ 54 ∷ 55 ∷ 56 ∷ 57 ∷ 43 ∷ 47 ∷ []

abbrev pub padding : ℕ
padding = 61

-- A read of a C string: its NUL stands behind the last character.
abbrev pub char_at : List ℕ → ℕ → ℕ
char_at [] i = 0
char_at (c ∷ cs) zero = c
char_at (c ∷ cs) (suc i) = char_at cs i

-- `strchr(s, c) - s`, which finds the NUL too. `none` stands for the null pointer.
unfoldable pub strchr : List ℕ → ℕ → Option ℕ
strchr [] c = if c == 0 then some 0 else none
strchr (d ∷ ds) c =
    let rest = strchr ds c in
    if d == c then some 0 else (elim rest [ none ↦ none | some i ↦ some (suc i) ])

-- `char_array_4` from the three bytes of `char_array_3`.
unfoldable pub sextets : ℕ → ℕ → ℕ → List ℕ
sextets a b c = (a / 4) ∷ ((a % 4) * 16 + b / 16) ∷ ((b % 16) * 4 + c / 64) ∷ (c % 64) ∷ []

-- The first `n` of them, as characters.
unfoldable pub letters : ℕ → List ℕ → List ℕ
letters zero s = []
letters (suc n) [] = []
letters (suc n) (s ∷ ss) = char_at base64_chars s ∷ letters n ss

-- The loop of `base64_encode`, with the bytes that wait in `char_array_3`, and what follows it.
unfoldable pub encode_from : List ℕ → List ℕ → List ℕ
unfolding sextets letters
encode_from [] [] = []
encode_from (a ∷ []) [] = letters 2 (sextets a 0 0) ++ padding ∷ padding ∷ []
encode_from (a ∷ b ∷ _) [] = letters 3 (sextets a b 0) ++ padding ∷ []
encode_from [] (x ∷ bin) = encode_from (x ∷ []) bin
encode_from (a ∷ []) (x ∷ bin) = encode_from (a ∷ x ∷ []) bin
encode_from (a ∷ b ∷ _) (x ∷ bin) = letters 4 (sextets a b x) ++ encode_from [] bin

unfoldable pub base64_encode : List ℕ → List ℕ
unfolding encode_from
base64_encode bin = encode_from [] bin

-- `char_array_3` from `char_array_4`; its entries are `uint8_t`.
unfoldable pub octets : ℕ → ℕ → ℕ → ℕ → List ℕ
octets p q r s =
    ((p * 4 + (q / 16) % 4) % 256)
    ∷ (((q % 16) * 16 + (r / 4) % 16) % 256)
    ∷ (((r % 4) * 64 + s) % 256)
    ∷ []

-- Four characters to three bytes; `none` where a character is not in the table.
unfoldable pub decode_group : ℕ → ℕ → ℕ → ℕ → Option (List ℕ)
unfolding strchr octets
decode_group a b c d = elim (strchr base64_chars a) [
  | none ↦ none
  | some p ↦ elim (strchr base64_chars b) [
    | none ↦ none
    | some q ↦ elim (strchr base64_chars c) [
      | none ↦ none
      | some r ↦ elim (strchr base64_chars d) [ none ↦ none | some s ↦ some (octets p q r s) ]
    ]
  ]
]

abbrev pub append_to : Option (List ℕ) → Option (List ℕ) → Option (List ℕ)
append_to none rest = none
append_to (some xs) none = none
append_to (some xs) (some ys) = some (xs ++ ys)

abbrev pub first : ℕ → Option (List ℕ) → Option (List ℕ)
first n none = none
first n (some xs) = some (take n xs)

-- What follows the loop of `base64_decode`: `i` characters wait, and NULs stand in for the others.
unfoldable pub decode_rest : List ℕ → Option (List ℕ)
unfolding decode_group
decode_rest [] = some []
decode_rest (a ∷ []) = first 0 (decode_group a 0 0 0)
decode_rest (a ∷ b ∷ []) = first 1 (decode_group a b 0 0)
decode_rest (a ∷ b ∷ c ∷ _) = first 2 (decode_group a b c 0)

-- The loop, with the characters that wait in `char_array_4`. It ends at the first padding.
unfoldable pub decode_from : List ℕ → List ℕ → Option (List ℕ)
unfolding decode_rest decode_group
decode_from buf [] = decode_rest buf
decode_from [] (x ∷ text) =
    let rest = decode_from (x ∷ []) text in if x == padding then decode_rest [] else rest
decode_from (a ∷ []) (x ∷ text) =
    let rest = decode_from (a ∷ x ∷ []) text in if x == padding then decode_rest (a ∷ []) else rest
decode_from (a ∷ b ∷ []) (x ∷ text) =
    let rest = decode_from (a ∷ b ∷ x ∷ []) text in
    if x == padding then decode_rest (a ∷ b ∷ []) else rest
decode_from (a ∷ b ∷ c ∷ _) (x ∷ text) =
    let rest = decode_from [] text in
    if x == padding then decode_rest (a ∷ b ∷ c ∷ []) else append_to (decode_group a b c x) rest

unfoldable pub base64_decode : List ℕ → Option (List ℕ)
unfolding decode_from
base64_decode text = decode_from [] text
